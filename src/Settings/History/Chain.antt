-- ===== src/Settings/History/Chain.antt =====
-- The history is a chain.
use agent_runner_opencode.Prelude.{
  length, drop, length-append, length-drop, ℕ, zero, suc, ◌+◌, ◌-◌, ◌%◌, ◌^◌, ◌≤◌, ◌<◌, ◌≡◌, refl,
  ap, ◌∙◌, Option, some, List, [], ◌∷◌, ◌++◌, arith,
}
use agent_runner_opencode.Json.{Value, object, get, as_str, as_u64}
use agent_runner_opencode.Json.Laws.{json_laws}
use agent_runner_opencode.Settings.Store.{
  max_settings_history_events, SettingsRecord, SettingsStore, Platform,
}
use agent_runner_opencode.Settings.History.{
  Request, last_event, event_sequence, event_digest, event_body, new_event, append_settings_history,
}

-- The later event has the next number and names the digest of the earlier one.
abbrev pub Follows : Option Value → Value → Type 0
Follows earlier later =
    (as_u64 (get later "sequence") ≡ some (event_sequence earlier + 1))
    × (as_str (get later "previous_event_sha256") ≡ some (event_digest earlier))

-- Each event follows the one before it.
abbrev pub IsChain : List Value → Type 0
IsChain [] = Unit
IsChain (e ∷ []) = Unit
IsChain (e ∷ f ∷ es) = Follows (some e) f × IsChain (f ∷ es)

IsChain-drop : (n : ℕ) (es : List Value) → IsChain es → IsChain (drop n es)
IsChain-drop zero es h = h
IsChain-drop (suc n) [] h = tt
IsChain-drop (suc n) (e ∷ []) h = IsChain-drop n [] tt
IsChain-drop (suc n) (e ∷ f ∷ es) h = IsChain-drop n (f ∷ es) h.1

IsChain-append :
    (es : List Value) (new : Value)
    → IsChain es
    → Follows (last_event es) new
    → IsChain (es ++ new ∷ [])
IsChain-append [] new h f = tt
IsChain-append (e ∷ []) new h f = (f, tt)
IsChain-append (e ∷ g ∷ es) new h f = (h.0, IsChain-append (g ∷ es) new h.1 f)

last-drop :
    (n : ℕ) (es : List Value) (new : Value)
    → n ≤ length es
    → last_event (drop n (es ++ new ∷ [])) ≡ some new
last-drop zero [] new h = refl
last-drop zero (e ∷ []) new h = refl
last-drop zero (e ∷ f ∷ es) new h = last-drop zero (f ∷ es) new (omega arith)
last-drop (suc n) [] new h = absurd (omega arith)
last-drop (suc n) (e ∷ es) new h = last-drop n es new (omega arith)

-- Below `u64::MAX` the addition does not wrap around.
next_number : (n : ℕ) → n < 2 ^ 64 - 1 → (n + 1) % 2 ^ 64 ≡ n + 1
next_number n h = omega arith

module _ (p : Platform) (request : Request) (now : ℕ) (before : List SettingsRecord)
    (store : SettingsStore) where
  new_event-Follows :
      event_sequence (last_event store.history) < 2 ^ 64 - 1
      → Follows (last_event store.history) (new_event p request now before store)
  unfolding new_event
  new_event-Follows room =
      let read : as_u64 (get (new_event p request now before store) "sequence")
          ≡ some ((event_sequence (last_event store.history) + 1) % 2 ^ 64) =
        simp json_laws in
      (
        read ∙ ap some (next_number (event_sequence (last_event store.history)) room),
        simp json_laws,
      )

  new_event_digest :
      event_digest (some (new_event p request now before store))
      ≡ p.sha256_hex (p.print (object (event_body p request now before store)))
  unfolding new_event
  new_event_digest = simp json_laws

  abbrev appended : SettingsStore
  appended = append_settings_history p request now before store

  -- Appending an event where the last number is below `u64::MAX` keeps the chain, leaves at most 1,024 events, of which the new one is the last,
  -- and the new one carries the digest of the rest of itself.
  pub append_settings_history-IsChain :
      IsChain store.history
      → event_sequence (last_event store.history) < 2 ^ 64 - 1
      → IsChain appended.history
        × (length appended.history ≤ max_settings_history_events)
        × (last_event appended.history ≡ some (new_event p request now before store))
        × (event_digest (last_event appended.history)
            ≡ p.sha256_hex (p.print (object (event_body p request now before store))))
  unfolding append_settings_history
  append_settings_history-IsChain h room_left =
      let new = new_event p request now before store in
      let all = store.history ++ new ∷ [] in
      let room = length-append store.history (new ∷ []) in
      let expired : ℕ = length all - max_settings_history_events in
      let kept : last_event (drop expired all) ≡ some new =
        last-drop expired store.history new (omega (arith, room)) in
      (
        IsChain-drop expired all (IsChain-append store.history new h (new_event-Follows room_left)),
        omega (arith, room, length-drop expired all),
        kept,
        ap event_digest kept ∙ new_event_digest,
      )
