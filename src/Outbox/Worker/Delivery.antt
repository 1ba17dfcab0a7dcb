-- ===== src/Outbox/Worker/Delivery.antt =====
-- What a row's turn sends, and what it counts.
use saas_forge.Base.{
  Bool-cases, ◌+◌, ◌↔◌, true, ℕ, String, ◌≡◌, refl, sym, ap, List, [], ◌∷◌, ◌++◌, some, none, arith,
  Option-cases, inl, inr,
}
use saas_forge.Outbox.Table.{Row}
use saas_forge.Outbox.Worker.{
  Downstream, World, Sent, post, WebhookEndpoint, ContentEventPayload, attempt, send_all,
  parse_content_payload, deliver_content,
}

abbrev pub posts : String → ℕ → String → List WebhookEndpoint → List Sent
posts event_type id payload [] = []
posts event_type id payload (ep ∷ eps) =
    post ep event_type id payload ∷ posts event_type id payload eps

append_nil : (xs : List Sent) → xs ++ [] ≡ xs
append_nil [] = refl
append_nil (x ∷ xs) = ap (λ l. x ∷ l) (append_nil xs)

append_assoc1 :
    (xs : List Sent) (y : Sent) (zs : List Sent) → (xs ++ (y ∷ [])) ++ zs ≡ xs ++ (y ∷ zs)
append_assoc1 [] y zs = refl
append_assoc1 (x ∷ xs) y zs = ap (λ l. x ∷ l) (append_assoc1 xs y zs)

module _ (d : Downstream) where
  -- Each of these attempts, from the n-th on, is answered without an error.
  abbrev pub AllAccepted : ℕ → List Sent → Type 0
  AllAccepted n [] = Unit
  AllAccepted n (s ∷ ss) = (d.send n s ≡ none) × AllAccepted (n + 1) ss

  send_all-AllAccepted :
      (event_type : String) (id : ℕ) (payload : String) (eps : List WebhookEndpoint) (w : World)
      → (send_all d event_type id payload eps w).0 ≡ none
      → AllAccepted w.attempts (posts event_type id payload eps)
        × ((send_all d event_type id payload eps w).1.sent
            ≡ w.sent ++ posts event_type id payload eps)
  unfolding send_all
  send_all-AllAccepted event_type id payload [] w h = (tt, sym (append_nil w.sent))
  send_all-AllAccepted event_type id payload (ep ∷ eps) w h =
      elim (Option-cases (d.send w.attempts (post ep event_type id payload))) [
        | inl ok ↦
            let w' = (attempt d (post ep event_type id payload) w).1 in
            let (rest, all_sent) =
              send_all-AllAccepted event_type id payload eps w' (ground arith) in
            (
              (ok, rest),
              ground (
                arith,
                append_assoc1 w.sent (post ep event_type id payload)
                    (posts event_type id payload eps),
              ),
            )
        | inr (m, bad) ↦ ground arith
      ]

  AllAccepted-send_all :
      (event_type : String) (id : ℕ) (payload : String) (eps : List WebhookEndpoint) (w : World)
      → AllAccepted w.attempts (posts event_type id payload eps)
      → (send_all d event_type id payload eps w).0 ≡ none
  unfolding send_all
  AllAccepted-send_all event_type id payload [] w h = refl
  AllAccepted-send_all event_type id payload (ep ∷ eps) w (ok, rest) = ground (
    arith,
    AllAccepted-send_all event_type id payload eps (attempt d (post ep event_type id payload) w).1
        rest,
  )

  -- Webhooks are wired, the payload parses, the tenant's endpoints are read, and each of them accepts the event.
  abbrev pub IsAccepted : Row → World → Type 0
  IsAccepted row w =
      (d.webhooks_wired ≡ true)
      × ((p : ContentEventPayload) × (eps : List WebhookEndpoint) × (parse_content_payload d
              row.payload
            ≡ some p)
          × (d.endpoints p.tenant_id ≡ some eps)
          × AllAccepted w.attempts (posts row.event_type row.id row.payload eps)
          × ((deliver_content d row w).1.sent
              ≡ w.sent ++ posts row.event_type row.id row.payload eps))

  deliver_content-IsAccepted :
      (row : Row) (w : World) → (deliver_content d row w).0 ≡ none → IsAccepted row w
  unfolding deliver_content
  deliver_content-IsAccepted row w h = elim (Bool-cases d.webhooks_wired) [
    | inr unwired ↦ ground arith
    | inl wired ↦ elim (Option-cases (parse_content_payload d row.payload)) [
      | inl none' ↦ ground arith
      | inr (p, parsed) ↦ elim (Option-cases (d.endpoints p.tenant_id)) [
        | inl none' ↦ ground arith
        | inr (eps, listed) ↦
            let (accepted, all_sent) =
              send_all-AllAccepted row.event_type row.id row.payload eps w (ground arith) in
            (wired, (p, eps, parsed, listed, accepted, ground arith))
      ]
    ]
  ]

  IsAccepted-deliver_content :
      (row : Row) (w : World) → IsAccepted row w → (deliver_content d row w).0 ≡ none
  unfolding deliver_content
  IsAccepted-deliver_content row w (wired, (p, eps, parsed, listed, accepted, all_sent)) =
      ground (arith, AllAccepted-send_all row.event_type row.id row.payload eps w accepted)

  -- A content event counts as delivered exactly when webhooks are wired, its payload parses, the
  -- tenant's endpoints are read, and each of them is sent the event once, in order, and answers
  -- without an error.
  pub deliver_content-posts :
      (row : Row) (w : World) → ((deliver_content d row w).0 ≡ none) ↔ IsAccepted row w
  deliver_content-posts row w = (deliver_content-IsAccepted row w, IsAccepted-deliver_content row w)
