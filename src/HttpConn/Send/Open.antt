-- ===== src/HttpConn/Send/Open.antt =====
-- What `write` leaves alone of a connection.
use tiny_http.Prelude.{
  ℕ, ◌≡◌, ◌∙◌, subst, List, [], ◌∷◌, length, take, Run, done, >>=-eq-done, arith, Bool-cases, inl,
  inr, ◌==◌, ◌++◌, if◌then◌else◌,
}
use tiny_http.HttpConn.Types.{HttpConn, init, modfd}
use tiny_http.HttpConn.Send.{
  Writev, wrote, again, failed, Written, is_sent, gather, advance, unmap, finish, write_loop, write,
}

-- The descriptor is as open as before, and the users as many.
abbrev pub Same : HttpConn → HttpConn → Type 0
Same c d = (d.is_open ≡ c.is_open) × (d.user_count ≡ c.user_count)

done-inj : {A : Type 0} {a b : A} → done a ≡ done b → a ≡ b
done-inj e = cc

advance-Same : (c : HttpConn) (n : ℕ) {d : HttpConn} → advance c n ≡ done d → Same c d
unfolding advance
advance-Same c n e = ground arith

finish-Same : (c : HttpConn) → Same c (finish c).1
unfolding finish unmap modfd init
finish-Same c = ground arith

last-Same :
    (d : HttpConn) (rest : Run (Written × HttpConn)) (r : Written × HttpConn)
    → (if is_sent d.bytes_to_send then done (finish d) else rest) ≡ done r
    → (rest ≡ done r → Same d r.1)
    → Same d r.1
last-Same d rest r e k = elim (Bool-cases (is_sent d.bytes_to_send)) [
  | inl all ↦
      let x : done (finish d) ≡ done r = rw all at e in
      subst (λ (z : Written × HttpConn). Same d z.1) (done-inj x) (finish-Same d)
  | inr part ↦ k (rw part at e)
]

write_loop-Same :
    (events : List Writev) (c : HttpConn) {r : Written × HttpConn}
    → write_loop events c ≡ done r
    → Same c r.1
unfolding write_loop modfd unmap
write_loop-Same [] c e = ground arith
write_loop-Same (again ∷ events) c e = ground arith
write_loop-Same (failed ∷ events) c e = ground arith
write_loop-Same (wrote n ∷ events) c {r} e =
    let (bytes, _, e1) = >>=-eq-done (gather c) _ e in
    let sent = record c { output = c.output ++ take n bytes } in
    let (d, ea, e2) = >>=-eq-done (advance sent (length (take n bytes))) _ e1 in
    let s = advance-Same sent (length (take n bytes)) ea in
    let t = last-Same d (write_loop events d) r e2 (λ x. write_loop-Same events d x) in
    (t.0 ∙ s.0, t.1 ∙ s.1)

pub write-Same :
    (events : List Writev) (c : HttpConn) {r : Written × HttpConn}
    → write events c ≡ done r
    → Same c r.1
unfolding write init modfd
write-Same events c {r} e = elim (Bool-cases (c.bytes_to_send == 0)) [
  | inl nothing ↦ let x = rw nothing at e in ground arith
  | inr some_left ↦ let x = rw some_left at e in write_loop-Same events c x
]
