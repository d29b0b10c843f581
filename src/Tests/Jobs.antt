-- ===== src/Tests/Jobs.antt =====
-- Jobs handed to a pool that refuses, in a world that counts the local tasks.
use llmops_gateway.Prelude.{ℕ, suc, String, true}
use llmops_gateway.Errors.{other, ok, err, Exec}
use llmops_gateway.Jobs.{JobService}

abbrev refusing : JobService ℕ String
refusing = record {
  use_arq = true;
  connected = λ w. true;
  create_pool = λ w. (ok tt, w);
  close_pool = λ w. (ok tt, w);
  forget_pool = λ w. w;
  enqueue_job = λ name payload w. (err (other "pool"), w);
  start = λ coroutine w. suc w;
}

abbrev nothing : Exec ℕ (Unit {0})
nothing w = (ok tt, w)
