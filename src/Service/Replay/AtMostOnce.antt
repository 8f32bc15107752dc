-- ===== src/Service/Replay/AtMostOnce.antt =====
-- What the cache of internal/service/ipc_replay.go answers, and for how long.
use navo.Base.{
  ◌≤◌, ◌≡◌, ◌≢◌, inl, inr, refl, sym, ◌∙◌, subst, String, none, some, List, [], ◌∷◌, ◌++◌, arith,
  str_eq, eq_iff, if◌then◌else◌, ltb, length, All, All-append, All-map, Bool-cases, Option-cases,
}
use navo.Base.Dict.{Dict, lookup, insert, delete, lookup-insert, lookup-delete, lookup-insert_self}
use navo.Service.Replay.{
  ReplayEntry, ReplayCache, reuse_refused, replays, replay_limit, admit_request, expire,
  complete_request,
}

-- The requests whose handler has returned, the latest first: the id, the fingerprint and the handler's response.
abbrev pub History : Type 0
History = Dict (String × String)

-- The cache holds the response of the request's handler.
abbrev pub IsAnswered : Dict ReplayEntry → History → String → Type 0
IsAnswered entries log id =
    (fingerprint response : String) × (lookup id log ≡ some (fingerprint, response))
    × (lookup id entries ≡ some (record { fingerprint = fingerprint; response = some response }))

abbrev pub AllDiffer : List String → Type 0
AllDiffer [] = Unit
AllDiffer (x ∷ xs) = All (λ y. x ≢ y) xs × AllDiffer xs

pub record IsSound (c : ReplayCache) (log : History) : Type 0 where
  pub bounded : length c.completed ≤ replay_limit
  pub differ : AllDiffer c.completed
  pub answered : All (IsAnswered c.entries log) c.completed

-- The steps of the callers of execute, in any order: a request is admitted, or a handler returns its response.
pub data Reach (c : ReplayCache) (log : History) : ReplayCache → History → Type 0 where
  here : Reach c log c log
  admits :
      {d e : ReplayCache} {seen : History} (id fingerprint : String)
      → Reach c log d seen
      → e ≡ (admit_request id fingerprint d).0
      → Reach c log e seen
  completes :
      {d e : ReplayCache} {seen : History} (id fingerprint response : String)
      → Reach c log d seen
      → lookup id d.entries ≡ some (record { fingerprint = fingerprint; response = none })
      → e ≡ complete_request id (record { fingerprint = fingerprint; response = none }) response d
      → Reach c log e ((id, (fingerprint, response)) ∷ seen)

lookup-insert_other :
    (k j : String) (v : ReplayEntry) (m : Dict ReplayEntry)
    → k ≢ j
    → lookup j (insert k v m) ≡ lookup j m
lookup-insert_other k j v m h = ground (arith, lookup-insert k j v m, eq_iff k j)

lookup-delete_other :
    (k j : String) (m : Dict ReplayEntry) → k ≢ j → lookup j (delete k m) ≡ lookup j m
lookup-delete_other k j m h = ground (arith, lookup-delete k j m, eq_iff k j)

insert-IsAnswered :
    (k j : String) (v : ReplayEntry) (m : Dict ReplayEntry) (log : History)
    → k ≢ j
    → IsAnswered m log j
    → IsAnswered (insert k v m) log j
insert-IsAnswered k j v m log h (f, r, l, e) = (f, r, l, lookup-insert_other k j v m h ∙ e)

lookup_other :
    (k j : String) (v : String × String) (log : History)
    → k ≢ j
    → lookup j ((k, v) ∷ log) ≡ lookup j log
unfolding lookup
lookup_other k j v log h = elim (Bool-cases (str_eq k j)) [
  | inl same ↦ absurd (h ((eq_iff k j).0 same))
  | inr other ↦ rw other refl
]

lookup_latest :
    (k : String) (v : String × String) (log : History) → lookup k ((k, v) ∷ log) ≡ some v
unfolding lookup
lookup_latest k v log = rw ((eq_iff k k).1 refl) refl

log-All :
    (k : String) (v : String × String) (m : Dict ReplayEntry) (log : History) (js : List String)
    → All (λ j. k ≢ j) js
    → All (IsAnswered m log) js
    → All (IsAnswered m ((k, v) ∷ log)) js
log-All k v m log [] h a = tt
log-All k v m log (j ∷ js) (n, h) ((f, r, l, e), a) =
    ((f, r, lookup_other k j v log n ∙ l, e), log-All k v m log js h a)

delete-IsAnswered :
    (k : String) (m : Dict ReplayEntry) (log : History) (js : List String)
    → All (λ j. k ≢ j) js
    → All (IsAnswered m log) js
    → All (IsAnswered (delete k m) log) js
delete-IsAnswered k m log [] h a = tt
delete-IsAnswered k m log (j ∷ js) (n, h) ((f, r, l, e), a) =
    ((f, r, l, lookup-delete_other k j m n ∙ e), delete-IsAnswered k m log js h a)

expire-IsSound :
    (ids : List String) (entries : Dict ReplayEntry) (log : History)
    → AllDiffer ids
    → All (IsAnswered entries log) ids
    → IsSound (expire ids entries) log
unfolding expire
expire-IsSound [] entries log d a = record { bounded = omega arith; differ = tt; answered = tt }
expire-IsSound (id ∷ rest) entries log (n, d) (x, a) =
    elim (Bool-cases (ltb replay_limit (length (id ∷ rest)))) [
      | inl long ↦ rw long (
          expire-IsSound rest (delete id entries) log d (delete-IsAnswered id entries log rest n a))
      | inr short ↦ rw short (record { bounded = ground arith; differ = (n, d); answered = (x, a) })
    ]

-- A request without a response is none of those that have one.
differs :
    (m : Dict ReplayEntry) (log : History) (k : String) (js : List String)
    → ((f r : String) → lookup k m ≢ some (record { fingerprint = f; response = some r }))
    → All (IsAnswered m log) js
    → All (λ j. k ≢ j) js
differs m log k [] h a = tt
differs m log k (j ∷ js) h ((f, r, l, e), a) = (
  (λ same. h f r (
      subst (λ i. lookup i m ≡ some (record { fingerprint = f; response = some r })) (sym same) e)),
  differs m log k js h a,
)

AllDiffer-append :
    (k : String) (js : List String) → All (λ j. k ≢ j) js → AllDiffer js → AllDiffer (js ++ k ∷ [])
AllDiffer-append k [] h d = (tt, tt)
AllDiffer-append k (j ∷ js) (n, h) (m, d) =
    (All-append (λ y. j ≢ y) js (k ∷ []) m ((λ e. n (sym e)), tt), AllDiffer-append k js h d)

insert-All :
    (k : String) (v : ReplayEntry) (m : Dict ReplayEntry) (log : History) (js : List String)
    → All (λ j. k ≢ j) js
    → All (IsAnswered m log) js
    → All (IsAnswered (insert k v m) log) js
insert-All k v m log [] h a = tt
insert-All k v m log (j ∷ js) (n, h) (x, a) =
    (insert-IsAnswered k j v m log n x, insert-All k v m log js h a)

admit-IsSound :
    (id fingerprint : String) (c : ReplayCache) (log : History)
    → IsSound c log
    → IsSound (admit_request id fingerprint c).0 log
unfolding admit_request
admit-IsSound id fingerprint c log s = elim (Option-cases (lookup id c.entries)) [
  | inr (e, known) ↦ elim (Bool-cases (str_eq e.fingerprint fingerprint)) [
    | inl same ↦ rw (admit_request, known, same) s
    | inr other ↦ rw (admit_request, known, other) s
  ]
  | inl new ↦
      rw (admit_request, new)
        (record {
          bounded = s.bounded;
          differ = s.differ;
          answered =
              insert-All id _ c.entries log c.completed
                (differs c.entries log id c.completed (λ f r e. ground (arith, new, e)) s.answered)
                s.answered;
        })
]

complete-IsSound :
    (id fingerprint response : String) (c : ReplayCache) (log : History)
    → lookup id c.entries ≡ some (record { fingerprint = fingerprint; response = none })
    → IsSound c log
    → IsSound
        (complete_request id (record { fingerprint = fingerprint; response = none }) response c)
        ((id, (fingerprint, response)) ∷ log)
unfolding complete_request
complete-IsSound id fingerprint response c log running s =
    let done : ReplayEntry = record { fingerprint = fingerprint; response = some response } in
    let returned : String × String = (fingerprint, response) in
    let new =
      differs c.entries log id c.completed (λ f r e. ground (arith, running, e)) s.answered in
    let longer : History = (id, returned) ∷ log in
    expire-IsSound (c.completed ++ id ∷ []) (insert id done c.entries) longer
      (AllDiffer-append id c.completed new s.differ)
      (All-append (IsAnswered (insert id done c.entries) longer) c.completed (id ∷ [])
        (log-All id returned (insert id done c.entries) log c.completed new
          (insert-All id done c.entries log c.completed new s.answered))
        (
          (
            fingerprint,
            response,
            lookup_latest id returned log,
            lookup-insert_self id done c.entries,
          ),
          tt,
        ))

Reach-IsSound :
    (c : ReplayCache) (log : History) (d : ReplayCache) (seen : History)
    → Reach c log d seen
    → IsSound c log
    → IsSound d seen
Reach-IsSound c log _ _ here s = s
Reach-IsSound c log d seen (admits id fingerprint r e) s =
    subst (λ now. IsSound now seen) (sym e)
      (admit-IsSound id fingerprint _ seen (Reach-IsSound c log _ seen r s))
Reach-IsSound c log d _ (completes {seen = before} id fingerprint response r running e) s =
    subst (λ now. IsSound now ((id, (fingerprint, response)) ∷ before)) (sym e)
      (complete-IsSound id fingerprint response _ before running (Reach-IsSound c log _ before r s))

-- A request that is answered from the cache: with the response that the last handler for its id has returned, or
-- with a refusal if its fingerprint is another.
abbrev pub IsReplayed : ReplayCache → History → String → Type 0
IsReplayed c log id =
    (first response : String) × (lookup id log ≡ some (first, response))
    × ((fingerprint : String)
        → admit_request id fingerprint c
          ≡ (c, if str_eq first fingerprint then replays (some response) else reuse_refused))

answered-IsReplayed :
    (c : ReplayCache) (log : History) (id : String)
    → IsAnswered c.entries log id
    → IsReplayed c log id
unfolding admit_request
answered-IsReplayed c log id (f, r, l, e) = (
  f,
  r,
  l,
  λ fingerprint. elim (Bool-cases (str_eq f fingerprint)) [
    | inl same ↦ rw (admit_request, e, same) refl
    | inr other ↦ rw (admit_request, e, other) refl
  ],
)

-- However requests and handlers interleave, from a sound cache: at most 256 completed requests are kept, and
-- for each of them a request with its id runs no handler, but is answered with the response that the handler of
-- the last request with the id has returned, or refused if its fingerprint is not that request's.
pub Reach-IsReplayed :
    (c : ReplayCache) (log : History) (d : ReplayCache) (seen : History)
    → Reach c log d seen
    → IsSound c log
    → (length d.completed ≤ replay_limit) × All (IsReplayed d seen) d.completed
Reach-IsReplayed c log d seen r s =
    let sound = Reach-IsSound c log d seen r s in
    (sound.bounded, All-map (answered-IsReplayed d seen) d.completed sound.answered)
