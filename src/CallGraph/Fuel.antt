-- ===== src/CallGraph/Fuel.antt =====
-- The fuel of the loop of _local_candidates (backend/app/indexing/call_graph.py).
use code_naut.Prelude.{ℕ, zero, suc, ◌<◌, ◌≡◌, refl, inl, inr, String, false, arith, Bool-cases}
use code_naut.CallGraph.Names.{is_blank, size, before_last_dot, before_last_dot-shorter}
use code_naut.CallGraph.Resolve.{is_within, local_loop}

pub local_loop-enough :
    (n m : ℕ) (module_name target parent : String)
    → size parent < n
    → size parent < m
    → local_loop n module_name target parent ≡ local_loop m module_name target parent
unfolding local_loop
local_loop-enough zero m module_name target parent h k = absurd (omega (arith, h))
local_loop-enough (suc n) zero module_name target parent h k = absurd (omega (arith, k))
local_loop-enough (suc n) (suc m) module_name target parent h k =
    elim (Bool-cases (is_within module_name parent)) [
      | inl e ↦
          let filled : is_blank parent ≡ false = ground (arith, e) in
          let shorter = before_last_dot-shorter parent filled in
          let rest =
            local_loop-enough n m module_name target (before_last_dot parent)
              (omega (arith, shorter, h)) (omega (arith, shorter, k)) in
          rw rest refl
      | inr e ↦ rw e refl
    ]
