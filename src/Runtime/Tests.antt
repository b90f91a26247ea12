-- ===== src/Runtime/Tests.antt =====
-- Values of the configuration.
use crain.Prelude.{◌≡◌, refl, done}
use crain.Prelude.Machine.{checked, add, sub, mul, div, fit}
use crain.Runtime.{deposit, deletion_queue_depth}

deposits : deposit checked 3 20 ≡ done 300100000000
unfolding deposit add mul div fit
deposits = refl

depth : deletion_queue_depth checked 1500000000000 300000 50000 ≡ done 1200000
unfolding deletion_queue_depth sub div
depth = refl
