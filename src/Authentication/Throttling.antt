-- ===== src/Authentication/Throttling.antt =====
-- How often a sign-in may be tried: LoginService._throttle of apps/authentication/services.py over
-- CacheService.incr of apps/common/services.py.
use date_app.Common.{
  ℕ, ◌+◌, ◌≤◌, ◌<◌, ◌≡◌, refl, sym, subst, ◌∙◌, ◌⊎◌, inl, inr, true, false, ◌&&◌, Option, none,
  some, List, arith, ltb, ==_refl, Bool-cases, Option-cases, Text, first_where, first_where-holds,
  first-update_found, first-update_other, Result, ok, err, ZynoraError, same_text_refl,
}
use date_app.Common.Calls.Keeps.{bind_after, bind_raised}
use date_app.Authentication.Models.{Scope, Counter, Store}
use date_app.Authentication.Login.{
  Request, ip_of, same_scope, counts, incr, throttle_scope, throttle,
}

same_scope_refl : (k : Scope) → same_scope k k ≡ true
unfolding same_scope
same_scope_refl (Scope.by_identifier t) = same_text_refl t
same_scope_refl (Scope.by_ip none) = refl
same_scope_refl (Scope.by_ip (some a)) = ==_refl a

-- A counter for the scope that stays until `end`, at a value.
abbrev pub At : Scope → ℕ → ℕ → List Counter → Type 0
At k end n cs =
    (c : Counter) × (c.value ≡ n)
    × (c.expires_at ≡ end)
    × ((t : ℕ) → t < end → first_where (counts t k) cs ≡ some c)

module _ (k : Scope) where
  -- The first use in a while starts the counter at 1.
  pub incr_first :
      (now ttl : ℕ) (cs : List Counter)
      → first_where (counts now k) cs ≡ none
      → let (n, ds) = incr now ttl k cs in (n ≡ 1) × At k (now + ttl) 1 ds
  unfolding incr first_where
  incr_first now ttl cs e =
      rw (e, incr)
        (
          refl,
          (
            record { scope = k; value = 1; expires_at = now + ttl },
            refl,
            refl,
            λ t l. ground (arith, same_scope_refl k),
          ),
        )

  pub incr_found :
      (t end n ttl : ℕ) (cs : List Counter)
      → t < end
      → At k end n cs
      → let (m, ds) = incr t ttl k cs in (m ≡ n + 1) × At k end (n + 1) ds
  unfolding incr
  incr_found t end n ttl cs l (c, v, x, f) =
      let up = λ (y : Counter). record y { value = c.value + 1 } in
      rw (f t l, incr)
        (
          omega (arith, v),
          (
            up c,
            omega (arith, v),
            x,
            λ u m.
                first-update_found (counts u k) (counts t k) up cs c (λ y. refl) (f u m)
                  (first_where-holds (counts t k) cs c (f t l)),
          ),
        )

  pub throttle_scope_counters :
      (t : ℕ) (s : Store) → (throttle_scope t k s).1.counters ≡ (incr t 300 k s.counters).1
  unfolding throttle_scope
  throttle_scope_counters t s = elim (Bool-cases (ltb 10 (incr t 300 k s.counters).0)) [
    | inl e ↦ rw e refl
    | inr e ↦ rw e refl
  ]

  throttle_scope_full :
      (t end n : ℕ) (s : Store)
      → t < end
      → 10 ≤ n
      → At k end n s.counters
      → throttle_scope t k s ≡ (
        err (ZynoraError.rate_limited "Too many sign-in attempts. Try again in a few minutes."),
        record s { counters = (incr t 300 k s.counters).1 },
      )
  unfolding throttle_scope
  throttle_scope_full t end n s l m h =
      let (e, g) = incr_found t end n 300 s.counters l h in ground (arith, e)

abbrev pub named : Text → Scope
named t = Scope.by_identifier t

-- The counters of addresses are none of an identifier's.
apart_scope :
    (t u : ℕ) (identifier : Text) (a : Option ℕ) (k : Scope) (end : ℕ)
    → (same_scope k (Scope.by_ip a) && ltb u end) ≡ true
    → (same_scope k (named identifier) && ltb t end) ≡ false
unfolding same_scope
apart_scope t u identifier a (Scope.by_identifier x) end h = cc
apart_scope t u identifier a (Scope.by_ip b) end h = refl

apart :
    (t u : ℕ) (identifier : Text) (a : Option ℕ) (c : Counter)
    → counts u (Scope.by_ip a) c ≡ true
    → counts t (named identifier) c ≡ false
apart t u identifier a c e = apart_scope t u identifier a c.scope c.expires_at e

module _ (identifier : Text) (a : Option ℕ) where
  pub At-incr_ip :
      (t end n : ℕ) (cs : List Counter)
      → At (named identifier) end n cs
      → At (named identifier) end n (incr t 300 (Scope.by_ip a) cs).1
  unfolding incr first_where same_scope
  At-incr_ip t end n cs (c, v, x, f) =
      elim (Option-cases (first_where (counts t (Scope.by_ip a)) cs)) [
        | inl e ↦ rw (e, incr) (c, v, x, λ u m. ground (arith, f u m))
        | inr g ↦
            let (d, e) = g in
            rw (e, incr)
              (
                c,
                v,
                x,
                λ u m.
                    first-update_other (counts u (named identifier)) (counts t (Scope.by_ip a))
                      (λ (y : Counter). record y { value = d.value + 1 }) cs (λ y. refl)
                      (apart u t identifier a)
                    ∙ f u m,
              )
      ]

-- A call ends with a value or an error.
pub Result-cases :
    {A S : Type 0} (r : Result A × S)
    → ((a : A) × (r ≡ (ok a, r.1))) ⊎ ((x : ZynoraError) × (r ≡ (err x, r.1)))
Result-cases (ok a, s) = inl (a, refl)
Result-cases (err x, s) = inr (x, refl)

module _ (t end n : ℕ) (identifier : Text) (request : Option Request) (s : Store) where
  At-second :
      (u : Store)
      → At (named identifier) end n u.counters
      → At (named identifier) end n (throttle_scope t (Scope.by_ip (ip_of request)) u).1.counters
  At-second u g =
      subst (At (named identifier) end n)
        (sym (throttle_scope_counters (Scope.by_ip (ip_of request)) t u))
        (At-incr_ip identifier (ip_of request) t end n u.counters g)

  -- What the first scope leaves of the identifier's counter is what the throttle leaves of it.
  At-both :
      At (named identifier) end n (throttle_scope t (named identifier) s).1.counters
      → At (named identifier) end n (throttle t identifier request s).1.counters
  unfolding throttle
  At-both first =
      let m = throttle_scope t (named identifier) in
      let k = λ (x : Unit). throttle_scope t (Scope.by_ip (ip_of request)) in
      elim (Result-cases (m s)) [
        | inl g ↦
            let (a, e) = g in
            subst (λ (z : Result Unit × Store). At (named identifier) end n z.1.counters)
              (sym (bind_after m k s (m s).1 a e)) (At-second (m s).1 first)
        | inr g ↦
            let (x, e) = g in
            subst (λ (z : Result Unit × Store). At (named identifier) end n z.1.counters)
              (sym (bind_raised m k s (m s).1 x e)) first
      ]

module _ (t end n : ℕ) (identifier : Text) (request : Option Request) (s : Store) where
  pub At-throttle :
      t < end
      → At (named identifier) end n s.counters
      → At (named identifier) end (n + 1) (throttle t identifier request s).1.counters
  At-throttle l h = At-both t end (n + 1) identifier request s (
      subst (At (named identifier) end (n + 1))
        (sym (throttle_scope_counters (named identifier) t s))
        (incr_found (named identifier) t end n 300 s.counters l h).1)

  pub At-start :
      first_where (counts t (named identifier)) s.counters ≡ none
      → At (named identifier) (t + 300) 1 (throttle t identifier request s).1.counters
  At-start e = At-both t (t + 300) 1 identifier request s (
      subst (At (named identifier) (t + 300) 1)
        (sym (throttle_scope_counters (named identifier) t s))
        (incr_first (named identifier) t 300 s.counters e).1)

  pub throttle_full :
      t < end
      → 10 ≤ n
      → At (named identifier) end n s.counters
      → throttle t identifier request s ≡ (
        err (ZynoraError.rate_limited "Too many sign-in attempts. Try again in a few minutes."),
        record s { counters = (incr t 300 (named identifier) s.counters).1 },
      )
  unfolding throttle
  throttle_full l m h =
      bind_raised (throttle_scope t (named identifier))
        (λ (x : Unit). throttle_scope t (Scope.by_ip (ip_of request))) s _ _
        (throttle_scope_full (named identifier) t end n s l m h)
