-- ===== src/Nats/Tests.antt =====
-- Runs of the NATS and key-value fields.
use xtemplate.Prelude.{ℕ, ◌+◌, ◌≡◌, refl, none, [], ◌∷◌, codes}
use xtemplate.Prelude.Errors.{ok, err, errorf}
use xtemplate.Nats.{Client, nats_request, five_seconds}

-- A request costs its timeout, and the store holds one key.
abbrev client : Client ℕ
client = record {
  chan_subscribe = λ subject w. (w, ok 1);
  unsubscribe = λ sub w. w;
  publish = λ subject message w. (w, none);
  request = λ subject message timeout w. (w + timeout, ok 2);
  put_string = λ key value w. (w + 1, ok 1);
  get = λ key w. (w, ok key);
  delete = λ key w. (w, none);
  purge = λ key w. (w, none);
  watch = λ keys w. (w, ok 3);
}

requests_run :
    (nats_request client (codes "a") [] [] 0 ≡ (five_seconds, ok 2))
    × (nats_request client (codes "a") [] (7 ∷ []) 0 ≡ (7, ok 2))
    × (nats_request client (codes "a") [] (7 ∷ 8 ∷ []) 0
        ≡ (0, err (errorf "too many timeout args" [])))
unfolding nats_request
requests_run = (refl, refl, refl)
