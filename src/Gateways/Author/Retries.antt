-- ===== src/Gateways/Author/Retries.antt =====
-- Runs of the author of internal/gateways/author.go, with answers that refuse and requests that fail.
use lapuacore.Common.{
  ℕ, ◌+◌, ◌<◌, ◌≤◌, ◌≡◌, ◌⊎◌, refl, ap, inl, inr, Bool, not, ◌&&◌, Option, none, some, List, [],
  ◌∷◌, ◌++◌, leb, Bool-cases, if◌then◌else◌, arith,
}
use lapuacore.Gateways.Author.{
  AuthErr, failed_to_send_auth_request, retry_limit_reached, waiting, returned, Author,
  AuthResponse, AuthEvent, auth_message, auth_canceled, new_author, send_auth_request,
  take_auth_result, send_auth_result, handle_auth_message, cancel_author, author_step, start_author,
  run_author,
}

-- 1 for an answer that says that the authentication failed.
abbrev pub refusal : Option AuthResponse → ℕ
refusal none = 0
refusal (some r) = if r.is_auth_resp && not r.success then 1 else 0

unfoldable pub refusals {ℓ} : {A : Type ℓ} → (A → Option AuthResponse) → List (AuthEvent A) → ℕ
refusals check [] = 0
refusals check (auth_message m ∷ events) = refusal (check m) + refusals check events
refusals check (auth_canceled ∷ events) = refusals check events

-- The author in its loop after `r` retries.
abbrev in_loop : ℕ → ℕ → Author
in_loop n r = record { num_of_retry = n; retry_count = r; requests = r + 1; at = waiting }

module _ {ℓ} {A : Type ℓ} (writes : ℕ → Bool) (check : A → Option AuthResponse) where
  -- Some first part of the events brings the author to its end, with at most so many requests.
  unfoldable pub Ends : List (AuthEvent A) → Author → ℕ → Type ℓ
  Ends events a limit =
      (before : List (AuthEvent A)) × (after : List (AuthEvent A)) × (b : Author) × (e : Option
        AuthErr)
      × (before ++ after ≡ events)
      × (run_author writes check before a ≡ some b)
      × (b.at ≡ returned e)
      × (b.requests ≤ limit)

  Ends-at :
      (events : List (AuthEvent A)) (a : Author) (e : Option AuthErr) (limit : ℕ)
      → a.at ≡ returned e
      → a.requests ≤ limit
      → Ends events a limit
  unfolding Ends run_author
  Ends-at events a e limit h le = ([], events, a, e, refl, refl, h, le)

  Ends-next :
      (event : AuthEvent A) (events : List (AuthEvent A)) (a b : Author) (limit : ℕ)
      → author_step writes check event a ≡ some b
      → Ends events b limit
      → Ends (event ∷ events) a limit
  unfolding Ends run_author
  Ends-next event events a b limit s (before, after, c, e, split, run, h, le) =
      (event ∷ before, after, c, e, ap (λ l. event ∷ l) split, rw (s, run_author) run, h, le)

  -- A message that is no refusal changes nothing, and a refusal is handled as one.
  step-message :
      (m : A) (n r : ℕ) (o : Option AuthResponse)
      → check m ≡ o
      → ((refusal o ≡ 0)
          × (author_step writes check (auth_message m) (in_loop n r) ≡ some (in_loop n r)))
        ⊎ ((refusal o ≡ 1)
            × (author_step writes check (auth_message m) (in_loop n r)
                ≡ some (
                    if leb n r
                    then record (in_loop n r) { at = returned (some retry_limit_reached) }
                    else send_auth_request writes (record (in_loop n r) { retry_count = r + 1 }))))
  unfolding author_step handle_auth_message send_auth_result take_auth_result
  step-message m n r none e = inl (refl, rw e refl)
  step-message m n r (some a) e = elim (Bool-cases a.is_auth_resp) [
    | inl auth ↦ elim (Bool-cases a.success) [
      | inl s ↦ inl (rw (auth, s) refl, rw (e, handle_auth_message, auth, s) refl)
      | inr f ↦ inr (rw (auth, f) refl, rw (e, handle_auth_message, auth, f) refl)
    ]
    | inr other ↦ inl (rw other refl, rw (e, handle_auth_message, other) refl)
  ]

  run_from :
      (events : List (AuthEvent A)) (n r : ℕ)
      → r ≤ n
      → n < r + refusals check events
      → Ends events (in_loop n r) (n + 1)
  unfolding send_auth_request refusals author_step cancel_author
  run_from [] n r le lt = absurd (omega arith)
  run_from (auth_canceled ∷ events) n r le lt =
      Ends-next auth_canceled events (in_loop n r) (record (in_loop n r) { at = returned none })
        (n + 1) refl (Ends-at events _ none (n + 1) refl (omega arith))
  run_from (auth_message m ∷ events) n r le lt = elim (step-message m n r (check m) refl) [
    | inl (none_refused, s) ↦
        Ends-next (auth_message m) events (in_loop n r) (in_loop n r) (n + 1) s
          (run_from events n r le (omega arith))
    | inr (refused, s) ↦
        Ends-next (auth_message m) events (in_loop n r) _ (n + 1) s (elim (Bool-cases (leb n r)) [
          | inl last ↦
              rw last (Ends-at events _ (some retry_limit_reached) (n + 1) refl (omega arith))
          | inr more ↦ rw more (elim (Bool-cases (writes (r + 1))) [
            | inl w ↦ rw w (run_from events n (r + 1) (ground arith) (omega arith))
            | inr f ↦
                rw f
                  (Ends-at events _ (some failed_to_send_auth_request) (n + 1) refl (ground arith))
          ])
        ])
  ]

  -- If more events are refusals than there are retries, some first part of the events brings the
  -- author to the end of `Start` with at most one request more than there are retries, whichever
  -- messages stand between the refusals and whichever requests are written.
  pub start_author-Ends :
      (n : ℕ) (events : List (AuthEvent A))
      → n < refusals check events
      → Ends events (start_author writes n) (n + 1)
  unfolding start_author new_author send_auth_request
  start_author-Ends n events lt = elim (Bool-cases (writes 0)) [
    | inl w ↦ rw w (run_from events n 0 (omega arith) (omega arith))
    | inr f ↦ rw f (Ends-at events _ (some failed_to_send_auth_request) (n + 1) refl (omega arith))
  ]
