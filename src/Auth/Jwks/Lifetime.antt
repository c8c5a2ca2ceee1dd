-- ===== src/Auth/Jwks/Lifetime.antt =====
-- The lifetime of the keys that the cache hands out.
use soffortmcp.Prelude.{
  ℕ, ◌+◌, ◌≤◌, ◌<◌, String, Bool, true, false, not, ◌&&◌, Option, none, some, ◌≡◌, ◌⊎◌, inl, inr,
  refl, sym, ap, subst, ◌∙◌, arith, ltb, if◌then◌else◌, is_nonempty, lookup, Dict, Bool-cases,
  Result, ok, err, bind, bind-eq-ok, ok-injective, codes, value_error, string_eq,
}
use soffortmcp.Prelude.Exec.{continue, ◌>>=◌}
use soffortmcp.Auth.Jwks.{
  Response, Client, signing_keys, JwksCache, Limits, seconds, clamp, max_digits, cache_ttl,
  search_max_age, read_response, keep, fetch, refresh_locked, refresh, get_key, fresh, is_none,
}
use soffortmcp.Approval.Service.{World, pause}

clamp_bounds : (n : ℕ) → (60 ≤ clamp n) × (clamp n ≤ 21600)
clamp_bounds n = ground arith

within :
    (requested count n : ℕ)
    → ◌≡◌ {A = Result ℕ}
        (if ltb max_digits count then err value_error else ok (clamp requested))
        (ok n)
    → (60 ≤ n) × (n ≤ 21600)
within requested count n h = ground (arith, clamp_bounds requested)

within_found :
    (default n : ℕ) (o : Option (ℕ × ℕ))
    → ◌≡◌ {A = Result ℕ}
        (elim o [
          | none ↦ ok (clamp default)
          | some (m, count) ↦ if ltb max_digits count then err value_error else ok (clamp m)
        ])
        (ok n)
    → (60 ≤ n) × (n ≤ 21600)
within_found default n none h =
    subst (λ m. (60 ≤ m) × (m ≤ 21600)) (ok-injective h) (clamp_bounds default)
within_found default n (some (m, count)) h = within m count n h

cache_ttl_bounds :
    {K : Type 0} (client : Client K) (default n : ℕ) (s : String)
    → cache_ttl client default s ≡ ok n
    → (60 ≤ n) × (n ≤ 21600)
unfolding cache_ttl
cache_ttl_bounds client default n s h = within_found default n (search_max_age client (codes s)) h

module _ {K : Type 0} (client : Client K) (limits : Limits) where
  pub read_response-ttl :
      (default : ℕ) (response : Response) (keys : Dict String K) (ttl : ℕ)
      → read_response client default response ≡ ok (keys, ttl)
      → 60 ≤ ttl
  unfolding read_response
  read_response-ttl default response keys ttl h =
      let (_, _, h1) = bind-eq-ok response.raise_for_status _ h in
      let (decoded, _, h2) = bind-eq-ok response.json _ h1 in
      let (parsed, _, h3) = bind-eq-ok (signing_keys client decoded) _ h2 in
      let (n, bounded, h4) = bind-eq-ok (cache_ttl client default response.cache_control) _ h3 in
      let same : n ≡ ttl = ap (λ (x : Dict String K × ℕ). x.1) (ok-injective h4) in
      subst (λ m. 60 ≤ m) same (cache_ttl_bounds client default n response.cache_control bounded).0

  keep-ok :
      (r : Result (Dict String K × ℕ)) (w t : World (JwksCache K))
      → ((keys : Dict String K) (ttl : ℕ) → r ≡ ok (keys, ttl) → 60 ≤ ttl)
      → keep client limits r w ≡ (ok tt, t)
      → t.clock < t.state.expires_at
  keep-ok (err e) w t long h = absurd (cc h)
  keep-ok (ok (keys, ttl)) w t long h =
      subst (λ (r : Result (Unit {0}) × World (JwksCache K)). r.1.clock < r.1.state.expires_at) h
        (omega (arith, long keys ttl refl))

  fetch-ok :
      (force : Bool) (w t : World (JwksCache K))
      → fetch client limits force w ≡ (ok tt, t)
      → t.clock < t.state.expires_at
  unfolding fetch
  fetch-ok force w t h =
      keep-ok (bind (client.get w.clock).0 (read_response client limits.default_ttl)) _ t
        (λ keys ttl e.
          let (response, _, read) = bind-eq-ok (client.get w.clock).0 _ e in
          read_response-ttl limits.default_ttl response keys ttl read)
        h

  same_world :
      (w t : World (JwksCache K))
      → ◌≡◌ {A = Result (Unit {0}) × World (JwksCache K)} (ok tt, w) (ok tt, t)
      → w ≡ t
  same_world w t h = ap (λ (r : Result (Unit {0}) × World (JwksCache K)). r.1) h

  refresh-ok :
      (force : Bool) (w t : World (JwksCache K))
      → refresh_locked client limits force w ≡ (ok tt, t)
      → (t.clock < t.state.expires_at)
        ⊎ ((force ≡ true)
            × (t.clock < t.state.last_refresh_attempt + seconds limits.refresh_cooldown))
  unfolding refresh_locked
  refresh-ok force w t h =
      elim (Bool-cases (not force && is_nonempty w.state.keys && ltb w.clock w.state.expires_at)) [
        | inl e ↦ let same = same_world w t (rw e at h) in rw (← same) (inl (ground arith))
        | inr e ↦
            elim (Bool-cases (
              force
              && ltb w.clock (w.state.last_refresh_attempt + seconds limits.refresh_cooldown))) [
                | inl cooling ↦
                    let same = same_world w t (rw (e, cooling) at h) in
                    rw (← same) (inr (ground arith))
                | inr due ↦ inl (fetch-ok force w t (rw (e, due) at h))
              ]
      ]

  after_refresh :
      (key_id : String) (k : K) (r : Result (Unit {0})) (v t : World (JwksCache K))
      → continue r (λ u x. (ok (lookup key_id x.state.keys), x)) v ≡ (ok (some k), t)
      → (◌≡◌ {A = Result (Unit {0}) × World (JwksCache K)} (r, v) (ok tt, t))
        × (lookup key_id t.state.keys ≡ some k)
  after_refresh key_id k (err e) v t h = absurd (cc h)
  after_refresh key_id k (ok u) v t h =
      let same : v ≡ t = ap (λ (x : Result (Option K) × World (JwksCache K)). x.1) h in
      (
        ap (λ x. (ok tt, x)) same,
        ap (λ (x : World (JwksCache K)). lookup key_id x.state.keys) (sym same)
            ∙ ok-injective (ap (λ (x : Result (Option K) × World (JwksCache K)). x.0) h),
      )

  refreshed :
      (key_id : String) (k : K) (cached : Option K) (w t : World (JwksCache K))
      → (refresh client limits (is_none client limits cached) >>= λ u x.
            (ok (lookup key_id x.state.keys), x))
          w
        ≡ (ok (some k), t)
      → (lookup key_id t.state.keys ≡ some k)
        × ((t.clock < t.state.expires_at)
            ⊎ ((cached ≡ none)
                × (t.clock < t.state.last_refresh_attempt + seconds limits.refresh_cooldown)))
  unfolding refresh
  refreshed key_id k none w t h =
      let (e, found) = after_refresh key_id k _ _ t h in
      (found, elim (refresh-ok true (pause w) t e) [ inl f ↦ inl f | inr (_, c) ↦ inr (refl, c) ])
  refreshed key_id k (some old) w t h =
      let (e, found) = after_refresh key_id k _ _ t h in
      (
        found,
        elim (refresh-ok false (pause w) t e) [
          | inl f ↦ inl f
          | inr (never, _) ↦ absurd (cc never)
        ],
      )

  looked_up :
      (key_id : String) (k : K) (cached : Option K) (w t : World (JwksCache K))
      → lookup key_id w.state.keys ≡ cached
      → elim (fresh client limits w.clock w.state.expires_at cached) [
        | some key ↦ (ok (some key), w)
        | none ↦
            (refresh client limits (is_none client limits cached) >>= λ u x.
            (ok (lookup key_id x.state.keys), x))
              w
      ]
        ≡ (ok (some k), t)
      → (lookup key_id t.state.keys ≡ some k)
        × ((t.clock < t.state.expires_at)
            ⊎ ((cached ≡ none)
                × (t.clock < t.state.last_refresh_attempt + seconds limits.refresh_cooldown)))
  looked_up key_id k none w t e h = refreshed key_id k none w t h
  looked_up key_id k (some old) w t e h = elim (Bool-cases (ltb w.clock w.state.expires_at)) [
    | inr expired ↦ refreshed key_id k (some old) w t (rw expired at h)
    | inl live ↦
        let hit = rw live at h in
        let same : w ≡ t = ap (λ (x : Result (Option K) × World (JwksCache K)). x.1) hit in
        let found : some old ≡ some k =
          ok-injective (ap (λ (x : Result (Option K) × World (JwksCache K)). x.0) hit) in
        rw (← same) (e ∙ found, inl (ground arith))
  ]

  -- A key that `get_key` returns is a current one of the cache, whose lifetime has not passed, unless
  -- the identifier was unfamiliar and the last attempt to refresh is more recent than the cooldown.
  pub get_key-IsFresh :
      (key_id : String) (k : K) (w t : World (JwksCache K))
      → get_key client limits key_id w ≡ (ok (some k), t)
      → (lookup key_id t.state.keys ≡ some k)
        × ((t.clock < t.state.expires_at)
            ⊎ ((lookup key_id w.state.keys ≡ none)
                × (t.clock < t.state.last_refresh_attempt + seconds limits.refresh_cooldown)))
  unfolding get_key
  get_key-IsFresh key_id k w t h = looked_up key_id k (lookup key_id w.state.keys) w t refl h
