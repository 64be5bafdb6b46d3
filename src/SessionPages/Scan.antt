-- ===== src/SessionPages/Scan.antt =====
-- src/session_turn_pages.rs: what the loop of `read_page` does with the messages, in order.
use mathlib.Core.List.{append-nil, append_assoc}
use agent_runner_opencode.Prelude.{
  eqb, Bool-cases, length, filter, length-append, IsPrefix, prefix-cons, Dict, lookup, ℕ, suc, ◌≤◌,
  String, ◌≡◌, refl, sym, ap, ◌∙◌, subst, ◌⊎◌, inl, inr, Bool, true, false, Option, none, some,
  List, [], ◌∷◌, ◌++◌, map, arith, ◌==◌,
}
use agent_runner_opencode.Failure.{ok, >>=-eq-ok}
use agent_runner_opencode.SessionPages.Data.{
  SourceKey, TokenBinding, PageBudgets, PageState, NativeMessage, ClassifiedPart, BodyProjection,
  absent, omitted, inline, saturating_add,
}
use agent_runner_opencode.SessionPages.Turns.{
  Turn, PageResult, Projector, message_matches_projection, omit_turn_body, stable_turn_id,
  projected_turn, page_result, response_fits,
}
use agent_runner_opencode.SessionPages.Page.{
  Step, passes, stops, pushes, settle, admit_as, admit, admit_body, consider, continue_with,
  page_turns,
}
use agent_runner_opencode.Settings.Requests.Created.{ok_inj}

-- What a turn says of its message: its identity, its role and its number.
abbrev pub outline : Turn → String × String × ℕ
outline turn = (turn.turn_id, turn.role, turn.snapshot_sequence)

omit_turn_body-outline : (turn : Turn) → outline (omit_turn_body turn) ≡ outline turn
unfolding omit_turn_body
omit_turn_body-outline turn = elim (Bool-cases (turn.body_state == "inline")) [
  | inl e ↦ rw e refl
  | inr e ↦ rw e refl
]

abbrev pub last_key : Option SourceKey → List NativeMessage → Option SourceKey
last_key cursor [] = cursor
last_key cursor (message ∷ messages) = last_key (some message.metadata.key) messages

length-snoc : (turns : List Turn) (turn : Turn) → length (turns ++ turn ∷ []) ≡ suc (length turns)
length-snoc turns turn = omega (arith, length-append turns (turn ∷ []))

module _ (x : Projector) (binding : TokenBinding) where
  abbrev pub outline_of : NativeMessage → ℕ → String × String × ℕ
  outline_of message sequence =
      (stable_turn_id x binding message.metadata.key.id, message.role, sequence)

  projected_turn-outline :
      (message : NativeMessage) (sequence : ℕ) (body : BodyProjection)
      (parts : Dict (List ClassifiedPart))
      → outline (projected_turn x binding message sequence body parts) ≡ outline_of message sequence
  unfolding projected_turn
  projected_turn-outline message sequence absent parts = refl
  projected_turn-outline message sequence (omitted _ _ _) parts = refl
  projected_turn-outline message sequence (inline _ _ _ _) parts = refl

  -- The outlines of messages that are numbered from `start + n` on.
  abbrev pub outlines : ℕ → ℕ → List NativeMessage → List (String × String × ℕ)
  outlines start n [] = []
  outlines start n (message ∷ messages) =
      outline_of message (saturating_add start n) ∷ outlines start (suc n) messages

  abbrev pub matching_messages : List NativeMessage → List NativeMessage
  matching_messages messages =
      filter (λ m. message_matches_projection m binding.projection) messages

module _ (x : Projector) (binding : TokenBinding) (budgets : PageBudgets) (state : PageState)
    (request_id : String) (parts : Dict (List ClassifiedPart)) (bodies : Dict BodyProjection)
    (examined : ℕ) where
  -- The response with the turn appended fits the budget.
  abbrev Fits : List Turn → NativeMessage → Turn → Type 0
  Fits turns message turn =
      (result : PageResult) × (page_result x binding state (some message.metadata.key)
          (turns ++ turn ∷ []) examined false
        ≡ ok result)
      × (response_fits x result budgets.max_response_bytes ≡ true)

  abbrev Pushes : List Turn → NativeMessage → Turn → Step → Type 0
  Pushes turns message turn step =
      (pushed : Turn) × (step ≡ pushes pushed)
      × (outline pushed ≡ outline turn)
      × Fits turns message pushed

  settle-Cases :
      (turns : List Turn) (message : NativeMessage) (without : Turn) (smaller : PageResult)
      (step : Step)
      → page_result x binding state
          (some message.metadata.key)
          (turns ++ without ∷ [])
          examined
          false
        ≡ ok smaller
      → (fits : Bool) → response_fits x smaller budgets.max_response_bytes ≡ fits
      → settle x binding budgets state request_id parts bodies examined fits turns without ≡ ok step
      → (step ≡ stops) ⊎ Pushes turns message without step
  settle-Cases turns message without smaller step e true f h =
      inr (without, sym (ok_inj h), refl, (smaller, e, f))
  settle-Cases [] message without smaller step e false f h = cc
  settle-Cases (_ ∷ _) message without smaller step e false f h = inl (sym (ok_inj h))

  admit_as-Cases :
      (turns : List Turn) (message : NativeMessage) (turn : Turn) (tentative : PageResult)
      (step : Step)
      → page_result x binding state (some message.metadata.key) (turns ++ turn ∷ []) examined false
        ≡ ok tentative
      → (fits : Bool) → response_fits x tentative budgets.max_response_bytes ≡ fits
      → admit_as x binding budgets state request_id parts bodies examined fits turns message turn
        ≡ ok step
      → (step ≡ stops) ⊎ Pushes turns message turn step
  admit_as-Cases turns message turn tentative step e true f h =
      inr (turn, sym (ok_inj h), refl, (tentative, e, f))
  admit_as-Cases turns message turn tentative step e false f h =
      let (smaller, a, h1) =
        >>=-eq-ok
          (page_result x binding state (some message.metadata.key)
            (turns ++ omit_turn_body turn ∷ []) examined false)
          _ h in
      elim (settle-Cases turns message (omit_turn_body turn) smaller step a
        (response_fits x smaller budgets.max_response_bytes) refl h1) [
          | inl s ↦ inl s
          | inr (pushed, s, o, f') ↦ inr (pushed, s, o ∙ omit_turn_body-outline turn, f')
        ]

  admit_body-Cases :
      (turns : List Turn) (message : NativeMessage) (found : Option BodyProjection) (step : Step)
      → admit_body x binding budgets state request_id parts bodies examined turns message found
        ≡ ok step
      → (step ≡ stops)
        ⊎ ((pushed : Turn) × (step ≡ pushes pushed)
            × (outline pushed
                ≡ outline_of x binding message (saturating_add state.next_sequence (length turns)))
            × Fits turns message pushed)
  unfolding admit
  admit_body-Cases turns message none step h = inl (sym (ok_inj h))
  admit_body-Cases turns message (some body) step h =
      let sequence : ℕ = saturating_add state.next_sequence (length turns) in
      let turn : Turn = projected_turn x binding message sequence body parts in
      let (tentative, a, h1) =
        >>=-eq-ok
          (page_result x binding state (some message.metadata.key) (turns ++ turn ∷ []) examined
            false)
          _ h in
      elim (admit_as-Cases turns message turn tentative step a
        (response_fits x tentative budgets.max_response_bytes) refl h1) [
          | inl s ↦ inl s
          | inr (pushed, s, o, f) ↦
              inr (pushed, s, o ∙ projected_turn-outline x binding message sequence body parts, f)
        ]

  -- A message is passed over if it does not match the projection, else its turn is pushed where one
  -- more may be and fits, or the page ends before it.
  abbrev Considered : List Turn → NativeMessage → Step → Type 0
  Considered turns message step =
      ((step ≡ passes) × (message_matches_projection message binding.projection ≡ false))
      ⊎ (step ≡ stops)
      ⊎ ((pushed : Turn) × (step ≡ pushes pushed)
          × (message_matches_projection message binding.projection ≡ true)
          × (eqb (length turns) budgets.max_turns ≡ false)
          × (outline pushed
              ≡ outline_of x binding message (saturating_add state.next_sequence (length turns)))
          × Fits turns message pushed)

  consider-Considered :
      (turns : List Turn) (message : NativeMessage) (step : Step)
      → consider x binding budgets state request_id parts bodies examined turns message ≡ ok step
      → Considered turns message step
  unfolding consider
  consider-Considered turns message step h =
      elim (Bool-cases (message_matches_projection message binding.projection)) [
        | inr m ↦ inl (ground (arith, h, m), m)
        | inl m ↦ elim (Bool-cases (eqb (length turns) budgets.max_turns)) [
          | inl e ↦ inr (inl (ground (arith, h, m, e)))
          | inr e ↦
              elim (admit_body-Cases turns message (lookup message.metadata.key.id bodies) step
                (ground (arith, h, m, e))) [
                  | inl s ↦ inr (inl s)
                  | inr (pushed, s, o, f) ↦ inr (inr (pushed, s, m, e, o, f))
                ]
        ]
      ]

  -- What the loop has done: it took the first messages, pushed one turn for each that matches the
  -- projection, numbered in order, and its cursor is at the last message it took.
  abbrev pub Scanned :
      List NativeMessage → List Turn → Option SourceKey → List Turn × Option SourceKey → Type 0
  Scanned messages turns cursor page =
      (taken : List NativeMessage) × (new : List Turn) × IsPrefix taken messages
      × (page.0 ≡ turns ++ new)
      × (map outline new
          ≡ outlines x binding state.next_sequence (length turns)
              (matching_messages x binding taken))
      × (page.1 ≡ last_key cursor taken)
      × (length turns ≤ budgets.max_turns → length page.0 ≤ budgets.max_turns)

  abbrev Continues :
      NativeMessage
      → List NativeMessage
      → List Turn
      → Option SourceKey
      → List Turn × Option SourceKey
      → Step
      → Type 0
  Continues message messages turns cursor page step =
      continue_with x binding budgets state request_id parts bodies examined
        (λ t c. page_turns x binding budgets state request_id parts bodies examined messages t c)
        message turns cursor step
      ≡ ok page

  nothing-Scanned :
      (messages : List NativeMessage) (turns : List Turn) (cursor : Option SourceKey)
      (page : List Turn × Option SourceKey)
      → page ≡ (turns, cursor)
      → Scanned messages turns cursor page
  nothing-Scanned messages turns cursor page e = (
    [],
    [],
    (messages, refl),
    ap (λ p. p.0) e ∙ sym (append-nil turns),
    refl,
    ap (λ p. p.1) e,
    λ h. subst (λ p. length p.0 ≤ budgets.max_turns) (sym e) h,
  )

  passed-Scanned :
      (message : NativeMessage) (messages : List NativeMessage) (turns : List Turn)
      (cursor : Option SourceKey) (page : List Turn × Option SourceKey)
      → message_matches_projection message binding.projection ≡ false
      → Scanned messages turns (some message.metadata.key) page
      → Scanned (message ∷ messages) turns cursor page
  passed-Scanned message messages turns cursor page m (taken, new, p, t, o, c, b) =
      (message ∷ taken, new, prefix-cons message taken messages p, t, rw m o, c, b)

  pushed-Scanned :
      (message : NativeMessage) (messages : List NativeMessage) (turns : List Turn)
      (cursor : Option SourceKey) (page : List Turn × Option SourceKey) (pushed : Turn)
      → message_matches_projection message binding.projection ≡ true
      → eqb (length turns) budgets.max_turns ≡ false
      → outline pushed
        ≡ outline_of x binding message (saturating_add state.next_sequence (length turns))
      → Scanned messages (turns ++ pushed ∷ []) (some message.metadata.key) page
      → Scanned (message ∷ messages) turns cursor page
  pushed-Scanned message messages turns cursor page pushed m k e (taken, new, p, t, o, c, b) = (
    message ∷ taken,
    pushed ∷ new,
    prefix-cons message taken messages p,
    t ∙ append_assoc turns (pushed ∷ []) new,
    rw m (
        ap (λ o'. o' ∷ map outline new) e
        ∙ ap
            (λ os.
              outline_of x binding message (saturating_add state.next_sequence (length turns)) ∷ os)
            (o
              ∙ ap
                  (λ n.
                    outlines x binding state.next_sequence n (matching_messages x binding taken))
                  (length-snoc turns pushed))),
    c,
    λ h. b (ground (arith, length-snoc turns pushed, k, h)),
  )

  pub page_turns-Scanned :
      (messages : List NativeMessage) (turns : List Turn) (cursor : Option SourceKey)
      (page : List Turn × Option SourceKey)
      → page_turns x binding budgets state request_id parts bodies examined messages turns cursor
        ≡ ok page
      → Scanned messages turns cursor page
  unfolding page_turns
  page_turns-Scanned [] turns cursor page h = nothing-Scanned [] turns cursor page (sym (ok_inj h))
  page_turns-Scanned (message ∷ messages) turns cursor page h =
      let (step, a, h1) =
        >>=-eq-ok (consider x binding budgets state request_id parts bodies examined turns message)
          _ h in
      elim (consider-Considered turns message step a) [
        | inl (e, m) ↦ passed-Scanned message messages turns cursor page m (
            page_turns-Scanned messages turns (some message.metadata.key) page
              (subst (Continues message messages turns cursor page) e h1))
        | inr (inl e) ↦
            nothing-Scanned (message ∷ messages) turns cursor page
              (sym (ok_inj (subst (Continues message messages turns cursor page) e h1)))
        | inr (inr (pushed, e, m, b, o, f)) ↦
            pushed-Scanned message messages turns cursor page pushed m b o (
              page_turns-Scanned messages (turns ++ pushed ∷ []) (some message.metadata.key) page
                (subst (Continues message messages turns cursor page) e h1))
      ]
