-- ===== src/ActionGap/Examples.antt =====
-- A subscriber that misses two actions.
use arcrelay_protocol.Prelude.{refl, [], ◌∷◌, arith, bytes_eq, nat_eq, bytes}
use arcrelay_protocol.ActionGap.{no_gap}
use arcrelay_protocol.ActionGap.Coverage.{
  IsBounded, Covers, Report, lost_sequence, lost_resource, remember, remember_all,
  remember-IsBounded, remember_all-Covers,
}

abbrev lost : Report
lost = lost_resource 5 (bytes "build")

no_gap-IsBounded : IsBounded no_gap
no_gap-IsBounded = record {
  bytes = refl;
  small = omega arith;
  few = omega arith;
  resync = λ e. refl;
}

remember-IsBounded_example : IsBounded (remember lost no_gap)
remember-IsBounded_example = remember-IsBounded lost no_gap no_gap-IsBounded

remember_all-Covers_example :
    Covers (bytes "build") (remember_all (lost_sequence 4 ∷ lost ∷ lost_resource 6 [] ∷ []) no_gap)
remember_all-Covers_example =
    remember_all-Covers (lost_sequence 4 ∷ []) (lost_resource 6 [] ∷ []) lost (bytes "build") no_gap
      refl
