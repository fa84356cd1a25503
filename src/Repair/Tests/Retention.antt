-- ===== src/Repair/Tests/Retention.antt =====
-- Files that source one another, and eleven attempts, and the theorems at them.
use base_line_prox.Base.{
  ℕ, ◌+◌, ◌*◌, ◌≡◌, ◌≢◌, ◌⊎◌, refl, some, [], ◌∷◌, codes_eq, nat_eq, string_eq, err,
}
use base_line_prox.Base.Dict.{Dict, NodupKeys, lookup}
use base_line_prox.Base.Text.{codes}
use base_line_prox.Base.Sorting.{sort_texts}
use base_line_prox.Interfaces.Data.{Text}
use base_line_prox.Repair.Reading.{out_of_fuel, read_closure}
use base_line_prox.Repair.Host.{Attempt, World}
use base_line_prox.Repair.Attempts.{pruned, prune_old_backups}
use base_line_prox.Repair.Retention.{IsPrunable, prune_removes_old}
use base_line_prox.Repair.Terminates.{read_closure_ends}
use base_line_prox.Repair.Pipeline.{interfaces_path}
use base_line_prox.Repair.Tests.Fixture.{directories, world}

-- two files that source one another
abbrev circular : Dict Text Text
circular =
    (interfaces_path, codes "source /etc/network/more\n")
    ∷ (codes "/etc/network/more", codes "source /etc/network/interfaces\n")
    ∷ []

read_closure_ends_example : read_closure directories interfaces_path circular ≢ err out_of_fuel
read_closure_ends_example = read_closure_ends directories interfaces_path circular

abbrev closed_after : ℕ → Attempt Text
closed_after t = record { backups = []; manifest = some []; status = some ("success", t) }

-- eleven attempts, of which the first is the oldest
abbrev attempts : Dict Text (Attempt Text)
attempts =
    (codes "a", closed_after 0)
    ∷ (codes "b", closed_after 1)
    ∷ (codes "c", closed_after 2)
    ∷ (codes "d", closed_after 3)
    ∷ (codes "e", closed_after 4)
    ∷ (codes "f", closed_after 5)
    ∷ (codes "g", closed_after 6)
    ∷ (codes "h", closed_after 7)
    ∷ (codes "i", closed_after 8)
    ∷ (codes "j", closed_after 9)
    ∷ (codes "k", closed_after 10)
    ∷ []

abbrev a_month_later : World Text
a_month_later = record world { now = 30 * 86400 * 1000000 + 5 }

removes_oldest : pruned a_month_later attempts ≡ codes "a" ∷ []
unfolding pruned lookup codes_eq nat_eq sort_texts
removes_oldest = refl

distinct_attempts : NodupKeys attempts
unfolding lookup codes_eq nat_eq
distinct_attempts =
    (refl, (refl, (refl, (refl, (refl, (refl, (refl, (refl, (refl, (refl, (refl, tt)))))))))))

prune_removes_old_example :
    (lookup (codes "a") (prune_old_backups a_month_later attempts) ≡ lookup (codes "a") attempts)
    ⊎ IsPrunable a_month_later attempts (codes "a")
prune_removes_old_example = prune_removes_old a_month_later attempts distinct_attempts (codes "a")
