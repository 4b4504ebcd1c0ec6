-- ===== src/FdManager/Tests.antt =====
-- The properties of the table of file descriptors on a new manager.
use routn.Base.{ℕ, ◌≡◌, ◌⊎◌, [], ◌∷◌, ◌++◌, true, Option, none, some, ◌==◌, if◌then◌else◌, arith}
use routn.FdManager.{FdManager, fd_ctx, fd_manager, get}
use routn.FdManager.Lookup.{IsValid, known, entry-replicate, get_result}

fd_manager-IsValid : IsValid fd_manager
fd_manager-IsValid = record {
  room = omega arith;
  made = λ fd a h. absurd (let z : none ≡ some a = rw (entry-replicate 64 fd) at h in cc);
}

get_result_example :
    (m' : FdManager) × (a : Option ℕ) × (get (some true) (some 100) true fd_manager ≡ some (m', a))
    × IsValid m'
    × (a ≡ some 0)
    × ((j : ℕ) → known m' j ≡ (if 100 == j then a else known fd_manager j))
    × ((m' ≡ fd_manager)
        ⊎ ((known fd_manager 100 ≡ none)
            × (true ≡ true)
            × (m'.objects ≡ fd_manager.objects ++ (fd_ctx (some true) 100 ∷ []))))
get_result_example = get_result (some true) 100 true fd_manager fd_manager-IsValid
