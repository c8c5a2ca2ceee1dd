-- ===== src/Auth/Jwks/Cooldown.antt =====
-- How often the cache asks for keys.
use soffortmcp.Prelude.{
  ℕ, ◌+◌, ◌≤◌, String, Bool, true, false, ◌&&◌, List, [], ◌∷◌, ◌≡◌, ◌⊎◌, inl, inr, refl, arith, ltb,
  Dict, Bool-cases, Result, ok, err, bind, bind-eq-ok, string_eq, is_nonempty, guard, guard_ok,
  or_raise, ok-injective, value_error, ap, subst, lookup, none, some,
}
use soffortmcp.Prelude.Json.{as_dict, as_list}
use soffortmcp.Auth.Jwks.{
  Response, Client, Request, JwksCache, new_cache, Limits, seconds, signing_keys, parse_keys,
  cache_ttl, read_response, keep, is_kept, fetch, refresh_locked,
}
use soffortmcp.Auth.Jwks.Lifetime.{read_response-ttl}
use soffortmcp.Approval.Service.{World}

-- How far a request of that kind at that instant is behind the request before it: a forced one, the
-- gap; another one, a minute, unless the keys of the one before it were not kept.
abbrev pub IsApart : ℕ → Bool → ℕ → Request → Type 0
IsApart gap true at previous = previous.at + gap ≤ at
IsApart gap false at previous = (previous.succeeded ≡ false) ⊎ (previous.at + seconds 60 ≤ at)

-- Adjacent requests, the last one first, are that far apart.
abbrev pub IsSpaced : ℕ → List Request → Type 0
IsSpaced gap [] = Unit {0}
IsSpaced gap (a ∷ []) = Unit {0}
IsSpaced gap (a ∷ b ∷ l) = IsApart gap a.forced a.at b × IsSpaced gap (b ∷ l)

module _ {K : Type 0} where
  -- What the attributes say of the last request.
  abbrev IsNewest : JwksCache K → List Request → Type 0
  IsNewest cache [] = Unit {0}
  IsNewest cache (a ∷ l) =
      (a.at ≡ cache.last_refresh_attempt)
      × ((a.succeeded ≡ false)
          ⊎ ((is_nonempty cache.keys ≡ true) × (a.at + seconds 60 ≤ cache.expires_at)))

  Spaced : ℕ → World (JwksCache K) → Type 0
  Spaced gap w = IsSpaced gap w.state.sent × IsNewest w.state w.state.sent

module _ {K : Type 0} (client : Client K) (limits : Limits) where
  -- The lives of a cache: refreshes of either kind, whatever they return, with time in between.
  pub data IsLife : World (JwksCache K) → Type 0 where
    created :
        (clock : ℕ) (others : List (JwksCache K → JwksCache K × ℕ))
        → IsLife (record { state = new_cache; clock = clock; others = others })
    passes :
        (duration : ℕ) (w : World (JwksCache K))
        → IsLife w
        → IsLife (record w { clock = w.clock + duration })
    refreshes :
        (force : Bool) (w : World (JwksCache K))
        → IsLife w
        → IsLife (refresh_locked client limits force w).1

  signing_keys-nonempty :
      (decoded : _) (keys : Dict String K)
      → signing_keys client decoded ≡ ok keys
      → is_nonempty keys ≡ true
  signing_keys-nonempty decoded keys h =
      let (body, _, h1) = bind-eq-ok (or_raise (as_dict decoded) value_error) _ h in
      let (raw, _, h2) =
        bind-eq-ok
          (or_raise (elim (lookup "keys" body) [ none ↦ none | some v ↦ as_list v ]) value_error) _
          h1 in
      let (_, _, h3) = bind-eq-ok (guard (is_nonempty raw) value_error) _ h2 in
      let (parsed, _, h4) = bind-eq-ok (parse_keys client [] raw) _ h3 in
      let (_, full, last) = bind-eq-ok (guard (is_nonempty parsed) value_error) _ h4 in
      subst (λ (d : Dict String K). is_nonempty d ≡ true) (ok-injective last) (guard_ok _ _ full)

  read_response-nonempty :
      (default : ℕ) (response : Response) (keys : Dict String K) (ttl : ℕ)
      → read_response client default response ≡ ok (keys, ttl)
      → is_nonempty keys ≡ true
  unfolding read_response
  read_response-nonempty default response keys ttl h =
      let (_, _, h1) = bind-eq-ok response.raise_for_status _ h in
      let (decoded, _, h2) = bind-eq-ok response.json _ h1 in
      let (parsed, signing, h3) = bind-eq-ok (signing_keys client decoded) _ h2 in
      let (n, _, h4) = bind-eq-ok (cache_ttl client default response.cache_control) _ h3 in
      subst (λ (d : Dict String K). is_nonempty d ≡ true)
        (ap (λ (x : Dict String K × ℕ). x.0) (ok-injective h4))
        (signing_keys-nonempty decoded parsed signing)

  next_gap :
      (gap : ℕ) (force kept : Bool) (at : ℕ) (cache : JwksCache K) (l : List Request)
      → IsNewest cache l
      → ((force ≡ true) × (cache.last_refresh_attempt + gap ≤ at))
        ⊎ ((force ≡ false) × ((is_nonempty cache.keys ≡ false) ⊎ (cache.expires_at ≤ at)))
      → IsSpaced gap l
      → IsSpaced gap (record { forced = force; at = at; succeeded = kept } ∷ l)
  next_gap gap force kept at cache [] n due s = tt
  next_gap gap true kept at cache (a ∷ l) n due s = (ground arith, s)
  next_gap gap false kept at cache (a ∷ l) n due s = (ground arith, s)

  keep-Spaced :
      (gap : ℕ) (force : Bool) (duration : ℕ) (r : Result (Dict String K × ℕ))
      (w : World (JwksCache K))
      → ((keys : Dict String K) (ttl : ℕ)
          → r ≡ ok (keys, ttl)
          → (is_nonempty keys ≡ true) × (60 ≤ ttl))
      → IsSpaced gap (
          record { forced = force; at = w.clock; succeeded = is_kept client limits r }
          ∷ w.state.sent)
      → Spaced gap
          (keep client limits r (record w {
            state = record w.state {
              last_refresh_attempt = w.clock;
              sent =
                  record { forced = force; at = w.clock; succeeded = is_kept client limits r }
                  ∷ w.state.sent;
            };
            clock = w.clock + duration;
          })).1
  unfolding Spaced
  keep-Spaced gap force duration (err e) w good s = (s, (refl, inl refl))
  keep-Spaced gap force duration (ok (keys, ttl)) w good s =
      let (full, long) = good keys ttl refl in (s, (refl, inr (full, omega (arith, long))))

  fetch-Spaced :
      (gap : ℕ) (force : Bool) (w : World (JwksCache K))
      → ((force ≡ true) × (w.state.last_refresh_attempt + gap ≤ w.clock))
        ⊎ ((force ≡ false) × ((is_nonempty w.state.keys ≡ false) ⊎ (w.state.expires_at ≤ w.clock)))
      → Spaced gap w
      → Spaced gap (fetch client limits force w).1
  unfolding fetch Spaced
  fetch-Spaced gap force w due h =
      let r = bind (client.get w.clock).0 (read_response client limits.default_ttl) in
      keep-Spaced gap force (client.get w.clock).1 r w
        (λ keys ttl e.
          let (response, _, read) = bind-eq-ok (client.get w.clock).0 _ e in
          (
            read_response-nonempty limits.default_ttl response keys ttl read,
            read_response-ttl client limits limits.default_ttl response keys ttl read,
          ))
        (next_gap gap force (is_kept client limits r) w.clock w.state w.state.sent h.1 due h.0)

  refresh-Spaced :
      (force : Bool) (w : World (JwksCache K))
      → Spaced (seconds limits.refresh_cooldown) w
      → Spaced (seconds limits.refresh_cooldown) (refresh_locked client limits force w).1
  unfolding refresh_locked
  refresh-Spaced true w h =
      elim (Bool-cases
        (ltb w.clock (w.state.last_refresh_attempt + seconds limits.refresh_cooldown))) [
          | inl e ↦ rw e h
          | inr e ↦ rw e (fetch-Spaced _ true w (inl (refl, ground arith)) h)
        ]
  refresh-Spaced false w h =
      elim (Bool-cases (is_nonempty w.state.keys && ltb w.clock w.state.expires_at)) [
        | inl e ↦ rw e h
        | inr e ↦ rw e (fetch-Spaced _ false w (inr (refl, ground arith)) h)
      ]

  life-Spaced : (w : World (JwksCache K)) → IsLife w → Spaced (seconds limits.refresh_cooldown) w
  unfolding Spaced
  life-Spaced _ (created clock others) = (tt, tt)
  life-Spaced _ (passes duration w h) = life-Spaced w h
  life-Spaced _ (refreshes force w h) = refresh-Spaced force w (life-Spaced w h)

  -- In every life of a cache, with refreshes of both kinds: a forced refresh sends its request at least
  -- the cooldown after the request before it, whatever that was and returned; any other refresh sends
  -- its request at least a minute after the request before it, if the keys of that one were kept.
  pub refresh-IsSpaced :
      (w : World (JwksCache K)) → IsLife w → IsSpaced (seconds limits.refresh_cooldown) w.state.sent
  unfolding Spaced
  refresh-IsSpaced w h = (life-Spaced w h).0
