-- ===== src/NetworkEnv/Distinct.antt =====
-- The codes of the findings of internal/networkenv/analyzer.go.
use navo.Base.{◌≢◌, inl, inr, sym, subst, List, [], ◌∷◌, map, All, if◌then◌else◌, Bool-cases}
use navo.NetworkEnv.Model.{Snapshot, Finding}
use navo.NetworkEnv.Verdict.{insert_stable, sort_stable, comes_first, analyze}
use navo.NetworkEnv.Findings.{Unique, code_of, insert-All, sort-All, collected-IsSound}

-- The codes of two findings, and no code twice.
pub data IsDistinct : List Finding → Type 0 where
  done : IsDistinct []
  also :
      {f : Finding} {fs : List Finding}
      → All (λ g. f.code ≢ g.code) fs
      → IsDistinct fs
      → IsDistinct (f ∷ fs)

from_codes : (fs : List Finding) → Unique (map code_of fs) → IsDistinct fs
from_codes [] u = done
from_codes (f ∷ fs) (n, u) = also (differs f fs n) (from_codes fs u)
  where
    differs :
        (f : Finding) (fs : List Finding)
        → All (λ d. f.code ≢ d) (map code_of fs)
        → All (λ g. f.code ≢ g.code) fs
    differs f [] h = tt
    differs f (g ∷ fs) (n, h) = (n, differs f fs h)

insert-IsDistinct :
    (x : Finding) (ys : List Finding)
    → All (λ g. x.code ≢ g.code) ys
    → IsDistinct ys
    → IsDistinct (insert_stable x ys)
unfolding insert_stable
insert-IsDistinct x [] n d = also tt done
insert-IsDistinct x (y ∷ ys) (p, n) (also m d) = elim (Bool-cases (comes_first y x)) [
  | inl e ↦
      subst (λ b. IsDistinct (if b then y ∷ insert_stable x ys else x ∷ y ∷ ys)) (sym e)
        (also (insert-All _ x ys (λ q. p (sym q)) m) (insert-IsDistinct x ys n d))
  | inr e ↦
      subst (λ b. IsDistinct (if b then y ∷ insert_stable x ys else x ∷ y ∷ ys)) (sym e)
        (also (p, n) (also m d))
]

sort-IsDistinct : (xs : List Finding) → IsDistinct xs → IsDistinct (sort_stable xs)
unfolding sort_stable
sort-IsDistinct [] d = done
sort-IsDistinct (x ∷ xs) (also n d) =
    insert-IsDistinct x (sort_stable xs) (sort-All _ xs n) (sort-IsDistinct xs d)

-- Analyze reports every code at most once.
pub analyze-IsDistinct : (s : Snapshot) → IsDistinct (analyze s).findings
unfolding analyze
analyze-IsDistinct s =
    let c = collected-IsSound s in
    sort-IsDistinct _ (from_codes _ (subst Unique (sym c.matches) c.unique))
