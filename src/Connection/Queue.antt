-- ===== src/Connection/Queue.antt =====
-- The wait queue of internal/connection/coordinator.go: its order, and who is admitted next.
use navo.Base.{
  ℕ, zero, suc, ◌+◌, ◌≤◌, ◌<◌, ◌≡◌, refl, ap, sym, subst, ◌⊎◌, inl, inr, Bool, true, false, none,
  some, List, [], ◌∷◌, ◌++◌, arith, some-injective, length, length-remove_at, get_elem?, select,
  All, remove_at, All-append, All-select, All-get_elem?, All-remove_at, All-map, if◌then◌else◌,
}
use navo.Connection.Coordinator.{Waiter, is_better, scan, pop_next_locked}

-- `x` arrived before `y`; within a domain the earlier one is at least as urgent, since a less urgent
-- one would have been superseded.
abbrev pub Before : Waiter → Waiter → Type 0
Before x y =
    (x.sequence < y.sequence) × (x.policy.domain ≡ y.policy.domain → y.policy.rank ≤ x.policy.rank)

abbrev pub IsOrdered : List Waiter → Type 0
IsOrdered [] = Unit
IsOrdered (x ∷ xs) = All (Before x) xs × IsOrdered xs

-- `b` is admitted before `x`.
abbrev pub Outranks : Waiter → Waiter → Type 0
Outranks b x =
    (x.policy.rank < b.policy.rank) ⊎ ((x.policy.rank ≡ b.policy.rank) × (b.sequence ≤ x.sequence))

Outranks-trans : (a b c : Waiter) → Outranks a b → Outranks b c → Outranks a c
Outranks-trans a b c h k = omega arith

is_better_lem :
    (candidate current : Waiter)
    → ((is_better candidate current ≡ true) × Outranks candidate current)
      ⊎ ((is_better candidate current ≡ false) × Outranks current candidate)
unfolding is_better
is_better_lem candidate current = ground arith

-- What the loop ends with: the place and the waiter it began with, or those of a later entry.
abbrev Found : ℕ → List Waiter → ℕ × Waiter → ℕ × Waiter → Type 0
Found k ws start end = (end ≡ start) ⊎ ((m : ℕ) × (end.0 ≡ k + m) × (get_elem? ws m ≡ some end.1))

Found-start :
    (k : ℕ) (w : Waiter) (ws : List Waiter) (start end : ℕ × Waiter)
    → Found (suc k) ws (k, w) end
    → Found k (w ∷ ws) start end
Found-start k w ws start end (inl e) =
    inr
      (0, omega (arith, ap (λ (p : ℕ × Waiter). p.0) e), ap (λ (p : ℕ × Waiter). some p.1) (sym e))
Found-start k w ws start end (inr (m, place, entry)) = inr (suc m, omega arith, entry)

Found-later :
    (k : ℕ) (w : Waiter) (ws : List Waiter) (start end : ℕ × Waiter)
    → Found (suc k) ws start end
    → Found k (w ∷ ws) start end
Found-later k w ws start end (inl e) = inl e
Found-later k w ws start end (inr (m, place, entry)) = inr (suc m, omega arith, entry)

scan_step :
    (k : ℕ) (w : Waiter) (ws : List Waiter) (j : ℕ) (b : Waiter)
    → ((scan k (w ∷ ws) (j, b) ≡ scan (suc k) ws (k, w)) × Outranks w b)
      ⊎ ((scan k (w ∷ ws) (j, b) ≡ scan (suc k) ws (j, b)) × Outranks b w)
unfolding scan
scan_step k w ws j b = elim (is_better_lem w b) [
  | inl (better, up) ↦ inl (rw better, up)
  | inr (worse, up) ↦ inr (rw worse, up)
]

scan-Found : (k : ℕ) (ws : List Waiter) (j : ℕ) (b : Waiter) → Found k ws (j, b) (scan k ws (j, b))
scan-Found k [] j b = inl (unfold scan in refl)
scan-Found k (w ∷ ws) j b = elim (scan_step k w ws j b) [
  | inl (e, _) ↦ rw e (Found-start k w ws (j, b) _ (scan-Found (suc k) ws k w))
  | inr (e, _) ↦ rw e (Found-later k w ws (j, b) _ (scan-Found (suc k) ws j b))
]

abbrev Tops : ℕ × Waiter → Waiter → List Waiter → Type 0
Tops end b ws = Outranks end.1 b × All (Outranks end.1) ws

scan_best : (k : ℕ) (ws : List Waiter) (j : ℕ) (b : Waiter) → Tops (scan k ws (j, b)) b ws
scan_best k [] j b = (unfold scan in omega arith, tt)
scan_best k (w ∷ ws) j b = elim (scan_step k w ws j b) [
  | inl (e, up) ↦
      let (above, rest) = scan_best (suc k) ws k w in
      subst (λ p. Tops p b (w ∷ ws)) (sym e)
        (Outranks-trans (scan (suc k) ws (k, w)).1 w b above up, (above, rest))
  | inr (e, up) ↦
      let (above, rest) = scan_best (suc k) ws j b in
      subst (λ p. Tops p b (w ∷ ws)) (sym e)
        (above, (Outranks-trans (scan (suc k) ws (j, b)).1 b w above up, rest))
]

-- Where popNextLocked takes the waiter from.
abbrev pub Picks : List Waiter → Waiter → List Waiter → Type 0
Picks ws next rest = (i : ℕ) × (get_elem? ws i ≡ some next) × (rest ≡ remove_at i ws)

Picks-Found :
    (w : Waiter) (ws : List Waiter) (end : ℕ × Waiter)
    → Found 1 ws (0, w) end
    → Picks (w ∷ ws) end.1 (remove_at end.0 (w ∷ ws))
Picks-Found w ws end (inl e) = (
  0,
  ap (λ (p : ℕ × Waiter). some p.1) (sym e),
  ap (λ (p : ℕ × Waiter). remove_at p.0 (w ∷ ws)) e,
)
Picks-Found w ws end (inr (m, place, entry)) =
    (suc m, entry, ap (λ i. remove_at i (w ∷ ws)) (omega arith))

-- One waiter is taken out of the queue; none is left that it does not outrank.
pub pop_next_locked_lem :
    (ws : List Waiter) (next : Waiter) (rest : List Waiter)
    → pop_next_locked ws ≡ some (next, rest)
    → Picks ws next rest × All (Outranks next) ws
unfolding pop_next_locked
pop_next_locked_lem [] next rest h = cc
pop_next_locked_lem (w ∷ ws) next rest h =
    let e = some-injective _ _ h in
    subst (λ (p : Waiter × List Waiter). Picks (w ∷ ws) p.0 p.1 × All (Outranks p.0) (w ∷ ws)) e
      (Picks-Found w ws (scan 1 ws (0, w)) (scan-Found 1 ws 0 w), scan_best 1 ws 0 w)

pub IsOrdered-append :
    (xs : List Waiter) (w : Waiter)
    → IsOrdered xs
    → All (λ x. Before x w) xs
    → IsOrdered (xs ++ w ∷ [])
IsOrdered-append [] w o h = (tt, tt)
IsOrdered-append (x ∷ xs) w o h =
    (All-append (Before x) xs (w ∷ []) o.0 (h.0, tt), IsOrdered-append xs w o.1 h.1)

IsOrdered-if :
    (b : Bool) (x : Waiter) (xs : List Waiter)
    → All (Before x) xs
    → IsOrdered xs
    → IsOrdered (if b then x ∷ xs else xs)
IsOrdered-if true x xs h o = (h, o)
IsOrdered-if false x xs h o = o

pub IsOrdered-select :
    (p : Waiter → Bool) (xs : List Waiter) → IsOrdered xs → IsOrdered (select p xs)
unfolding select
IsOrdered-select p [] o = tt
IsOrdered-select p (x ∷ xs) o =
    IsOrdered-if (p x) x (select p xs) (All-select (Before x) p xs o.0) (IsOrdered-select p xs o.1)

pub IsOrdered-remove_at : (xs : List Waiter) (i : ℕ) → IsOrdered xs → IsOrdered (remove_at i xs)
unfolding remove_at
IsOrdered-remove_at [] i o = tt
IsOrdered-remove_at (x ∷ xs) zero o = o.1
IsOrdered-remove_at (x ∷ xs) (suc i) o =
    (All-remove_at (Before x) xs i o.0, IsOrdered-remove_at xs i o.1)

abbrev Sided : Waiter → Waiter → Type 0
Sided b x = Before x b ⊎ Before b x

remove_at-Sided :
    (xs : List Waiter) (i : ℕ) {b : Waiter}
    → IsOrdered xs
    → get_elem? xs i ≡ some b
    → All (Sided b) (remove_at i xs)
unfolding remove_at
remove_at-Sided [] i o e = cc
remove_at-Sided (x ∷ xs) zero {b} o e =
    All-map (λ y h. inr (subst (λ z. Before z y) (some-injective x b e) h)) xs o.0
remove_at-Sided (x ∷ xs) (suc i) {b} o e =
    (inl (All-get_elem? (Before x) xs i o.0 e), remove_at-Sided xs i o.1 e)

-- What is known of an entry that stays behind when `b` is admitted.
pub record IsLater (b : Waiter) (x : Waiter) : Type 0 where
  pub not_above : x.policy.rank ≤ b.policy.rank
  pub fifo : x.policy.rank ≡ b.policy.rank → b.sequence < x.sequence
  pub domain_fifo : x.policy.domain ≡ b.policy.domain → b.sequence < x.sequence

later : (b x : Waiter) → Outranks b x → Sided b x → IsLater b x
later b x up (inl (first, same)) = record {
  not_above = omega arith;
  fifo = λ e. omega arith;
  domain_fifo = λ e. omega (arith, same e);
}
later b x up (inr (first, same)) = record {
  not_above = omega arith;
  fifo = λ e. first;
  domain_fifo = λ e. first;
}

All-later :
    (b : Waiter) (xs : List Waiter) → All (Outranks b) xs → All (Sided b) xs → All (IsLater b) xs
All-later b [] h k = tt
All-later b (x ∷ xs) h k = (later b x h.0 k.0, All-later b xs h.1 k.1)

-- From an ordered queue popNextLocked takes an entry of it, and what is left is the queue without that entry,
-- in the same order. No entry that stays has a higher rank, and those of the same rank, and those of the same
-- domain whatever their rank, arrived later.
pub pop_next_locked-IsLater :
    (ws : List Waiter) (next : Waiter) (rest : List Waiter)
    → IsOrdered ws
    → pop_next_locked ws ≡ some (next, rest)
    → All (IsLater next) rest
      × IsOrdered rest
      × (length ws ≡ suc (length rest))
      × Picks ws next rest
pop_next_locked-IsLater ws next rest o h =
    let ((i, entry, removed), best) = pop_next_locked_lem ws next rest h in
    rw removed (
      All-later next (remove_at i ws) (All-remove_at (Outranks next) ws i best)
          (remove_at-Sided ws i o entry),
      IsOrdered-remove_at ws i o,
      length-remove_at ws i entry,
      (i, entry, refl),
    )

pub pop_next_locked-none : (ws : List Waiter) → pop_next_locked ws ≡ none → ws ≡ []
unfolding pop_next_locked
pop_next_locked-none [] h = refl
pop_next_locked-none (w ∷ ws) h = cc

pub pop_next_locked-All :
    (P : Waiter → Type 0) (ws : List Waiter) (next : Waiter) (rest : List Waiter)
    → All P ws
    → pop_next_locked ws ≡ some (next, rest)
    → P next × All P rest
pop_next_locked-All P ws next rest all h =
    let ((i, entry, removed), best) = pop_next_locked_lem ws next rest h in
    rw removed (All-get_elem? P ws i all entry, All-remove_at P ws i all)
