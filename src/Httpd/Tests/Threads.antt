-- ===== src/Httpd/Tests/Threads.antt =====
-- The threads of main at concrete inputs.
use tiny_http.Prelude.{ℕ, ◌≡◌, refl, true, [], ◌∷◌, some, none}
use tiny_http.Httpd.Main.{Net, startup, serving}
use tiny_http.Httpd.Main.Late.{Late, Reach-Late, lost_client}

-- The first thread serves the second client.
Reach-Late_example : Late (7 ∷ 8 ∷ []) 0 8 × (◌≡◌ {A = ℕ} 2 2)
Reach-Late_example = Reach-Late [] 8 (serving 8 ∷ []) (lost_client 7 8) refl

abbrev net : Net
net = record {
  socket = some 3;
  setsockopt = true;
  bind = true;
  getsockname = some 40000;
  listen = true;
}

starts : startup net 12345 ≡ some (3, 12345)
unfolding startup
starts = refl

starts_anywhere : startup net 0 ≡ some (3, 40000)
unfolding startup
starts_anywhere = refl

dies : startup (record net { socket = none }) 12345 ≡ none
unfolding startup
dies = refl
