-- ===== src/Web/RateLimit.antt =====
-- How many requests the rate limit lets through in a window of time.
use phantasm.Base.{
  ℕ, ◌≤◌, ◌<◌, ◌≡◌, refl, sym, String, Bool, true, false, ◌&&◌, List, [], ◌∷◌, ◌++◌, append_assoc,
  append-nil, none, length, str_eq, if◌then◌else◌, arith, eq_iff, length-append,
}
use phantasm.Base.Dict.{lookup, lookup-insert}
use phantasm.Base.Except.{Result, ok, err}
use phantasm.Web.{Request, Web, Exception, enforce_rate_limit, in_window, or_empty, bucket_key}

abbrev pub Event : Type 0
Event = ℕ × Request

-- The clock does not go back.
abbrev pub InOrder : ℕ → List Event → Type 0
InOrder last [] = Unit
InOrder last ((now, r) ∷ es) = (last ≤ now) × InOrder now es

abbrev pub last_time : ℕ → List Event → ℕ
last_time last [] = last
last_time last ((now, r) ∷ es) = last_time now es

abbrev passed : {A : Type 0} → Result Exception A → Bool
passed (ok a) = true
passed (err e) = false

abbrev pub bucket : String → Web → List ℕ
bucket k web = or_empty (lookup k web.rate_limit)

-- Is this a request with the key `k`, and let through?
abbrev pub let_through : String → ℕ → Request → Web → Bool
let_through k now r web = str_eq (bucket_key r) k && passed (enforce_rate_limit now r web).0

-- The times of the requests with the key `k` that are let through, as the requests come
abbrev pub admitted : String → List Event → Web → List ℕ
admitted k [] web = []
admitted k ((now, r) ∷ es) web =
    let rest = admitted k es (enforce_rate_limit now r web).1 in
    if let_through k now r web then now ∷ rest else rest

in_window-append :
    (T : ℕ) (xs ys : List ℕ) → in_window T (xs ++ ys) ≡ in_window T xs ++ in_window T ys
in_window-append T [] ys = refl
in_window-append T (x ∷ xs) ys = ground (arith, in_window-append T xs ys)

in_window-in_window :
    (now T : ℕ) (xs : List ℕ) → now ≤ T → in_window T (in_window now xs) ≡ in_window T xs
in_window-in_window now T [] later = refl
in_window-in_window now T (x ∷ xs) later = ground (arith, in_window-in_window now T xs later)

length-in_window : (T : ℕ) (xs : List ℕ) → length (in_window T xs) ≤ length xs
length-in_window T [] = omega arith
length-in_window T (x ∷ xs) = ground (arith, length-in_window T xs)

-- The bucket of a key holds of the times in `seen` all those that a window can still reach.
abbrev Keeps : String → List ℕ → ℕ → Web → Type 0
Keeps k seen last web =
    (length (bucket k web) ≤ 20)
    × ((T : ℕ) → last ≤ T → in_window T seen ≡ in_window T (bucket k web))

bucket-enforce :
    (k : String) (now : ℕ) (r : Request) (web : Web)
    → bucket k (enforce_rate_limit now r web).1 ≡ (
        if let_through k now r web
        then in_window now (bucket k web) ++ (now ∷ [])
        else bucket k web)
unfolding enforce_rate_limit
bucket-enforce k now r web = grind (arith, lookup-insert, eq_iff)

room :
    (k : String) (now : ℕ) (r : Request) (web : Web)
    → let_through k now r web ≡ true
    → length (in_window now (bucket k web)) < 20
unfolding enforce_rate_limit
room k now r web through = grind (arith, eq_iff)

keeps-admitted :
    (last now : ℕ) (seen b : List ℕ)
    → last ≤ now
    → ((T : ℕ) → last ≤ T → in_window T seen ≡ in_window T b)
    → (T : ℕ) → now ≤ T
    → in_window T (seen ++ (now ∷ [])) ≡ in_window T (in_window now b ++ (now ∷ []))
keeps-admitted last now seen b later keeps T after =
    rw
      (
        in_window-append T seen (now ∷ []),
        in_window-append T (in_window now b) (now ∷ []),
        in_window-in_window now T b after,
        keeps T (omega arith),
      )
      refl

keeps-if :
    (through : Bool) (seen : List ℕ) (last now : ℕ) (b : List ℕ)
    → last ≤ now
    → (through ≡ true → length (in_window now b) < 20)
    → length b ≤ 20
    → ((T : ℕ) → last ≤ T → in_window T seen ≡ in_window T b)
    → (length (if through then in_window now b ++ (now ∷ []) else b) ≤ 20)
      × ((T : ℕ)
          → now ≤ T
          → in_window T (if through then seen ++ (now ∷ []) else seen)
            ≡ in_window T (if through then in_window now b ++ (now ∷ []) else b))
keeps-if true seen last now b later space fits keeps = (
  omega (arith, length-append (in_window now b) (now ∷ []), space refl),
  keeps-admitted last now seen b later keeps,
)
keeps-if false seen last now b later space fits keeps = (fits, λ T after. keeps T (omega arith))

append-if :
    (through : Bool) (seen : List ℕ) (now : ℕ) (rest : List ℕ)
    → seen ++ (if through then now ∷ rest else rest)
      ≡ (if through then seen ++ (now ∷ []) else seen) ++ rest
append-if true seen now rest = sym (append_assoc seen (now ∷ []) rest)
append-if false seen now rest = refl

Keeps-step :
    (k : String) (seen : List ℕ) (last now : ℕ) (r : Request) (web : Web)
    → last ≤ now
    → Keeps k seen last web
    → Keeps k
        (if let_through k now r web then seen ++ (now ∷ []) else seen)
        now
        (enforce_rate_limit now r web).1
Keeps-step k seen last now r web later (fits, keeps) = rw (bucket-enforce k now r web) (
    keeps-if (let_through k now r web) seen last now (bucket k web) later (room k now r web) fits
      keeps)

admitted-bounded :
    (k : String) (seen : List ℕ) (last : ℕ) (es : List Event) (web : Web)
    → InOrder last es
    → Keeps k seen last web
    → (T : ℕ) → last_time last es ≤ T
    → length (in_window T (seen ++ admitted k es web)) ≤ 20
admitted-bounded k seen last [] web ordered (fits, keeps) T after =
    rw (append-nil seen, keeps T after) (omega (arith, length-in_window T (bucket k web)))
admitted-bounded k seen last ((now, r) ∷ es) web (later, ordered) kept T after =
    let through = let_through k now r web in
    let next = (enforce_rate_limit now r web).1 in
    rw (append-if through seen now (admitted k es next)) (
      admitted-bounded k (if through then seen ++ (now ∷ []) else seen) now es next ordered
        (Keeps-step k seen last now r web later kept) T after)

-- Of the requests of one client to one path, whatever others come between, at most 20 are let
-- through in a window of 60 seconds: if the clock does not go back and none is noted at the start,
-- then at any time that is not before the last request, the times in the 60 seconds before it
-- at which such a request was let through are at most 20.
pub admitted_per_window :
    (k : String) (es : List Event) (web : Web) (T : ℕ)
    → InOrder 0 es
    → lookup k web.rate_limit ≡ none
    → last_time 0 es ≤ T
    → length (in_window T (admitted k es web)) ≤ 20
admitted_per_window k es web T ordered fresh after =
    admitted-bounded k [] 0 es web ordered (rw fresh (omega arith), λ t _. rw fresh refl) T after
