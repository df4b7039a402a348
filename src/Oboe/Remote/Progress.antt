-- ===== src/Oboe/Remote/Progress.antt =====
-- The poller does not get stuck: from every moment its goroutines can give their tokens back, and an invalid service key
-- ends it.
use apm_go.Prelude.{
  ℕ, ◌∙◌, ◌<◌, suc, ◌+◌, true, false, ◌≡◌, ◌⊎◌, inl, inr, refl, arith, if◌then◌else◌, Bool-cases,
}
use apm_go.Float.{Float64}
use apm_go.Oboe.Life.{check_settings_timeout}
use apm_go.Oboe.Remote.{
  RemoteSettings, Updater, other_error, invalid_service_key, apply_answer, answered, is_invalid_key,
}
use apm_go.Oboe.Remote.Polling.{
  Step, Reachable, Reachable-OneToken, OneToken, answers, returns, returns_invalid, cancels,
  checks_ttl, returns_check, stops,
}
use apm_go.Oboe.Request.{Oboe}
use apm_go.Oboe.Settings.{LocalConfig}
use apm_go.Oboe.Urls.{Regexps, Cache}

one_of : (a b c : ℕ) → a + b + c ≡ 1 → (a ≡ 1) ⊎ ((b ≡ 1) ⊎ (c ≡ 1))
one_of a b c h = ground arith

module _ {F R C : Type 0} ⦃fl : Float64 F⦄ ⦃rx : Regexps R⦄ ⦃ca : Cache C⦄
    (served : RemoteSettings F → Type 0) (conf : LocalConfig) where
  pub data Steps : Updater F R C → Updater F R C → Type 0 where
    stay : (u : Updater F R C) → Steps u u
    move : (u v w : Updater F R C) → Step served conf u v → Steps v w → Steps u w

  Steps-trans : (u v w : Updater F R C) → Steps u v → Steps v w → Steps u w
  Steps-trans u v w (stay _) t = t
  Steps-trans u v w (move _ m _ s r) t = move u m w s (Steps-trans m v w r t)

  one-Step : (u v : Updater F R C) → Step served conf u v → Steps u v
  one-Step u v m = move u v v m (stay v)

  give_back :
      (u : Updater F R C) (left : ℕ)
      → u.returning ≡ suc left
      → u.update_ready ≡ false
      → Steps u (record u { returning = left; update_ready = true })
  give_back u left e r = one-Step u _ (returns u left e r)

  give_back_invalid :
      (u : Updater F R C) (left : ℕ)
      → u.returning_invalid ≡ suc left
      → u.update_ready ≡ false
      → Steps u (record u {
        returning_invalid = left;
        update_ready = true;
        cancelling = u.cancelling + 1;
      })
  give_back_invalid u left e r = one-Step u _ (returns_invalid u left e r)

  -- The server's answer is some error at the least, since the client has a timeout.
  fetch_and_give_back :
      (u : Updater F R C) (left : ℕ)
      → u.fetching ≡ suc left
      → u.update_ready ≡ false
      → Steps u (record u { fetching = left; update_ready = true })
  unfolding answered is_invalid_key apply_answer
  fetch_and_give_back u left e r =
      let m : Updater F R C = record u { fetching = left; returning = u.returning + 1 } in
      move u m _ (answers u left 0 other_error u.oboe e tt refl)
        (give_back m u.returning (omega arith) r)

  check_and_give_back :
      (u : Updater F R C) (left : ℕ)
      → u.checking ≡ suc left
      → u.ttl_ready ≡ false
      → Steps u
          (record u { checking = left; ttl_ready = true; oboe = check_settings_timeout 0 u.oboe })
  check_and_give_back u left e r =
      let m : Updater F R C = record u {
        checking = left;
        checked = u.checked + 1;
        oboe = check_settings_timeout 0 u.oboe;
      } in
      move u m _ (checks_ttl u left 0 e) (one-Step m _ (returns_check m u.checked (omega arith) r))

  -- What the two parts of the state have to do with each other.
  abbrev SameTtl : Updater F R C → Updater F R C → Type 0
  SameTtl u v =
      (v.looping ≡ u.looping)
      × (v.ttl_ready ≡ u.ttl_ready)
      × (v.checking ≡ u.checking)
      × (v.checked ≡ u.checked)

  fetch_returns :
      (u : Updater F R C)
      → OneToken served conf u
      → (v : Updater F R C) × Steps u v × (v.update_ready ≡ true) × SameTtl u v
  fetch_returns u t = elim (Bool-cases u.update_ready) [
    | inl r ↦ (u, stay u, r, (refl, refl, refl, refl))
    | inr r ↦ elim (one_of u.fetching u.returning u.returning_invalid (ground arith)) [
      | inl e ↦ (_, fetch_and_give_back u 0 e r, refl, (refl, refl, refl, refl))
      | inr (inl e) ↦ (_, give_back u 0 e r, refl, (refl, refl, refl, refl))
      | inr (inr e) ↦ (_, give_back_invalid u 0 e r, refl, (refl, refl, refl, refl))
    ]
  ]

  check_returns :
      (u : Updater F R C)
      → (if u.ttl_ready then 1 else 0) + u.checking + u.checked ≡ 1
      → (v : Updater F R C) × Steps u v
        × (v.ttl_ready ≡ true)
        × (v.looping ≡ u.looping)
        × (v.update_ready ≡ u.update_ready)
  check_returns u t = elim (Bool-cases u.ttl_ready) [
    | inl r ↦ (u, stay u, r, refl, refl)
    | inr r ↦ elim (one_of u.checking u.checked 0 (ground arith)) [
      | inl e ↦ (_, check_and_give_back u 0 e r, refl, refl, refl)
      | inr (inl e) ↦ (_, one-Step u _ (returns_check u 0 e r), refl, refl, refl)
      | inr (inr e) ↦ absurd (omega arith)
    ]
  ]

  -- From every moment of the poller, whatever has happened, its goroutines can take steps after which both tokens are back
  -- in their channels, so that the next tick of either timer starts its work again; the loop goes on meanwhile if it
  -- was running.
  pub Reachable-unblocked :
      (o : Oboe F R C) (u : Updater F R C)
      → Reachable served conf o u
      → (v : Updater F R C) × Steps u v
        × (v.update_ready ≡ true)
        × (v.ttl_ready ≡ true)
        × (v.looping ≡ u.looping)
  Reachable-unblocked o u r =
      let t = Reachable-OneToken served conf o u r in
      let (m, s, ready, (l, t0, c0, c1)) = fetch_returns u t in
      let (v, s', ready', l', kept) = check_returns m (rw (t0, c0, c1) t.1) in
      (v, Steps-trans u m v s s', kept ∙ ready, ready', l' ∙ l)

  -- A running poller whose request is answered with an invalid service key can end: its goroutine cancels the context, and
  -- the loop stops, while the settings stay as they are.
  pub invalid_key_stops :
      (o : Oboe F R C) (u : Updater F R C)
      → Reachable served conf o u
      → u.looping ≡ true
      → 0 < u.fetching
      → (v : Updater F R C) × Steps u v × (v.looping ≡ false) × (v.done ≡ true) × (v.oboe ≡ u.oboe)
  unfolding answered is_invalid_key apply_answer
  invalid_key_stops o u r l f =
      let t = Reachable-OneToken served conf o u r in
      let e : u.fetching ≡ 1 = ground arith in
      let waits : u.update_ready ≡ false = ground arith in
      let a : Updater F R C = record u {
        fetching = 0;
        returning_invalid = u.returning_invalid + 1;
      } in
      let b : Updater F R C = record a {
        returning_invalid = u.returning_invalid;
        update_ready = true;
        cancelling = u.cancelling + 1;
      } in
      let c : Updater F R C = record b { cancelling = u.cancelling; done = true } in
      let d : Updater F R C = record c { looping = false } in
      (
        d,
        move u a d (answers u 0 0 invalid_service_key u.oboe e tt refl) (
            move a b d (returns_invalid a u.returning_invalid (omega arith) waits)
              (move b c d (cancels b u.cancelling (omega arith)) (one-Step c d (stops c l refl)))),
        refl,
        refl,
        refl,
      )
