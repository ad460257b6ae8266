-- ===== src/HttpConn/Send.antt =====
-- `write` and `unmap` of version_03/http/http_conn.cpp.
pub mod Deliver
pub mod Split
pub mod Open
use tiny_http.Prelude.{
  ℕ, zero, suc, ◌+◌, ◌-◌, ◌*◌, ◌/◌, ◌%◌, ◌^◌, ◌<◌, ◌≤◌, ◌≡◌, ◌≢◌, ◌↔◌, ◌⊎◌, inl, inr, refl, sym, ap,
  ◌∙◌, subst, Bool, true, false, List, [], ◌∷◌, ◌++◌, append_assoc, append-nil, Bytes, length,
  length-append, take, drop, length-drop, Run, Option, some, none, replicate, done, fault, timeout,
  ◌>>=◌, >>=-eq-done, >>=-ne-timeout, arith, Bool-cases, leb, ltb, lt→ltb, not, ◌&&◌, ◌||◌, ◌==◌,
  if◌then◌else◌, codes, String,
}
use tiny_http.Libc.{int_max}
use tiny_http.HttpConn.Types.{HttpConn, Iovec, epollin, epollout, modfd, init}

-- What `writev` comes to: at most so many bytes, EAGAIN, or another error.
pub data Writev : Type 0 where
  wrote : ℕ → Writev
  again failed : Writev

-- What `write` comes to: true, false, or a call of `writev` that is still to come.
pub data Written : Type 0 where
  kept closed pending : Written

-- The bytes of a buffer that an `iovec` names.
unfoldable pub slice : Iovec → Bytes → Run Bytes
slice v b = if leb (v.base + v.len) (length b) then done (take v.len (drop v.base b)) else fault

-- What `writev` has to send: the buffers that `m_iv_count` counts.
unfoldable pub gather : HttpConn → Run Bytes
unfolding slice
gather c = do
  header ← slice c.iv0 c.write_buf
  let file : Bytes = (elim c.file [ none ↦ [] | some content ↦ content ])
  let both = (do body ← slice c.iv1 file; done (header ++ body))
  if c.iv_count == 1 then done header else both

unfoldable pub unmap : HttpConn → HttpConn
unmap c = record c { file = none }

-- Whether the `int` that these 32 bits hold is negative.
abbrev pub is_negative : ℕ → Bool
is_negative bits = leb (2 ^ 31) bits

-- `bytes_to_send <= 0`
abbrev pub is_sent : ℕ → Bool
is_sent bits = bits == 0 || is_negative bits

-- `bytes_to_send - n` by its 32 bits, for an `n` of at most 2^31 - 1
abbrev pub sub_int : ℕ → ℕ → ℕ
sub_int bits n = (bits + 2 ^ 32 - n) % 2 ^ 32

-- The `iovec`s after `n` more bytes are sent, for an `n` that is an `int`; as is `bytes_have_send`,
-- which does not become negative. A sum or a difference outside an `int` is undefined, as is a
-- pointer in front of the file. A negative `bytes_to_send` becomes a length that nothing uses, since
-- the loop ends.
unfoldable pub advance : HttpConn → ℕ → Run HttpConn
advance c n =
    let have = c.bytes_have_send + n in
    let left = sub_int c.bytes_to_send n in
    let overflows = ltb int_max have || (is_negative c.bytes_to_send && not (is_negative left)) in
    let idx = length c.write_buf in
    let c' = record c { bytes_have_send = have; bytes_to_send = left } in
    let in_file : Run HttpConn =
      (if ltb have idx
        then fault
        else done (record c' {
          iv0 = record { base = c.iv0.base; len = 0 };
          iv1 = record { base = have - idx; len = left };
        })) in
    let in_header : Run HttpConn =
      done (record c' { iv0 = record { base = have; len = c.iv0.len - have } }) in
    if overflows then fault else if leb c.iv0.len have then in_file else in_header

-- Everything is sent.
unfoldable pub finish : HttpConn → Written × HttpConn
unfolding unmap modfd init
finish c = let c' = modfd (unmap c) epollin in if c'.linger then (kept, init c') else (closed, c')

-- One round of the loop: whether `write` returns.
unfoldable pub write_loop : List Writev → HttpConn → Run (Written × HttpConn)
unfolding finish
write_loop [] c = done (pending, c)
write_loop (again ∷ events) c = done (kept, modfd c epollout)
write_loop (failed ∷ events) c = done (closed, unmap c)
write_loop (wrote n ∷ events) c = do
  bytes ← gather c
  let sent = take n bytes
  c' ← advance (record c { output = c.output ++ sent }) (length sent)
  let more = write_loop events c'
  if is_sent c'.bytes_to_send then done (finish c') else more

unfoldable pub write : List Writev → HttpConn → Run (Written × HttpConn)
unfolding write_loop modfd init
write events c =
    if c.bytes_to_send == 0 then done (kept, init (modfd c epollin)) else write_loop events c
