-- ===== src/Sources/Senate/Opening.antt =====
-- When a session with the search opens, and which errors are tried again.
use evnt_trden_public.Base.{
  ℕ, zero, suc, ◌+◌, ◌<◌, ◌≡◌, refl, sym, ap, ◌∙◌, Bool, true, false, ◌&&◌, Option, none, some, [],
  ◌∷◌, Text, is_empty, &&-true, ◌↔◌, arith,
}
use mathlib.Core.Path.{subst}
use evnt_trden_public.Sources.Senate.{
  on_return, Home, served, status_error, broken, Accept, accepted, not_accepted, Try, returned,
  raised, or_retry, get_home, accept_agreement, Session, open_session, new_session,
  max_session_attempts,
}

abbrev is_status_error : Home → Bool
is_status_error (served token) = false
is_status_error (status_error message) = true
is_status_error (broken message) = false

-- The `n` attempts from this one on end in such an error.
pub errors : (ℕ → Home) → ℕ → ℕ → Bool
errors home attempt zero = true
errors home attempt (suc n) = is_status_error (home attempt) && errors home (attempt + 1) n

-- Attempt `n` is served, behind such errors only.
pub Reaches : (ℕ → Home) → ℕ → ℕ → Option Text → Type 0
Reaches home attempt n token = (errors home attempt n ≡ true) × (home (attempt + n) ≡ served token)

Reaches-suc :
    (home : ℕ → Home) (attempt n : ℕ) (token : Option Text)
    → is_status_error (home attempt) ≡ true
    → Reaches home (attempt + 1) n token
    → Reaches home attempt (suc n) token
unfolding Reaches errors
Reaches-suc home attempt n token e r = (ground (arith, r.0), ap home (omega arith) ∙ r.1)

of_returned : {A : Type 0} {a b : A} → returned a ≡ returned b → a ≡ b
of_returned h = cc

abbrev Reached : (ℕ → Home) → ℕ → ℕ → Option Text → Type 0
Reached home left attempt token = (n : ℕ) × (n < left) × Reaches home attempt n token

step_sound :
    (home : ℕ → Home) (left attempt : ℕ) (token : Option Text) (answer : Home)
    → home attempt ≡ answer
    → ((last : Text) (token : Option Text)
        → get_home home left (attempt + 1) last ≡ returned token
        → Reached home left (attempt + 1) token)
    → or_retry (λ message. get_home home left (attempt + 1) message) answer ≡ returned token
    → Reached home (suc left) attempt token
unfolding or_retry Reaches errors
step_sound home left attempt token (served t) e later h =
    (0, omega arith, (refl, ap home (omega arith) ∙ e ∙ ap served (of_returned h)))
step_sound home left attempt token (status_error m) e later h =
    let (n, below, r) = later m token h in
    (suc n, omega arith, Reaches-suc home attempt n token (rw e refl) r)
step_sound home left attempt token (broken m) e later h = absurd cc

get_home_sound :
    (home : ℕ → Home) (left attempt : ℕ) (last : Text) (token : Option Text)
    → get_home home left attempt last ≡ returned token
    → Reached home left attempt token
unfolding get_home
get_home_sound home zero attempt last token h = absurd cc
get_home_sound home (suc left) attempt last token h =
    step_sound home left attempt token (home attempt) refl (get_home_sound home left (attempt + 1))
      h

later_complete :
    (home : ℕ → Home) (left attempt : ℕ) (token : Option Text) (answer : Home)
    → home attempt ≡ answer
    → is_status_error (home attempt) ≡ true
    → ((message : Text) → get_home home left (attempt + 1) message ≡ returned token)
    → or_retry (λ message. get_home home left (attempt + 1) message) (home attempt) ≡ returned token
unfolding or_retry
later_complete home left attempt token (served t) e failed later = absurd (ground (arith, e))
later_complete home left attempt token (status_error m) e failed later = rw e (later m)
later_complete home left attempt token (broken m) e failed later = absurd (ground (arith, e))

get_home_complete :
    (home : ℕ → Home) (left attempt n : ℕ) (last : Text) (token : Option Text)
    → n < left
    → Reaches home attempt n token
    → get_home home left attempt last ≡ returned token
unfolding get_home or_retry Reaches errors
get_home_complete home zero attempt n last token below r = absurd (omega arith)
get_home_complete home (suc left) attempt zero last token below (_, e) =
    let here : home attempt ≡ served token = ap home (omega arith) ∙ e in rw here refl
get_home_complete home (suc left) attempt (suc n) last token below (failed, e) =
    later_complete home left attempt token (home attempt) refl (&&-true _ _ failed).0 λ message.
      get_home_complete home left (attempt + 1) n message token (omega arith)
        ((&&-true _ _ failed).1, ap home (omega arith) ∙ e)

-- The agreement is accepted with a token that is there.
pub IsAgreed : (Text → Accept) → Option Text → Session → Type 0
IsAgreed accept token s =
    (token ≡ some s.csrf_token)
    × (is_empty s.csrf_token ≡ false)
    × (accept s.csrf_token ≡ accepted true)

of_accepted :
    (token : Text) (answer : Accept) (s : Session)
    → accept_agreement token answer ≡ returned s
    → (token ≡ s.csrf_token) × (answer ≡ accepted true)
unfolding accept_agreement
of_accepted token (accepted true) s h = (ap (λ x. x.csrf_token) (of_returned h), refl)
of_accepted token (accepted false) s h = absurd cc
of_accepted token (not_accepted m) s h = absurd cc

open_session_sound :
    (accept : Text → Accept) (token : Option Text) (s : Session)
    → open_session accept token ≡ returned s
    → IsAgreed accept token s
unfolding open_session IsAgreed
open_session_sound accept none s h = absurd cc
open_session_sound accept (some []) s h = absurd cc
open_session_sound accept (some (c ∷ t)) s h =
    let (e, ok) = of_accepted (c ∷ t) (accept (c ∷ t)) s h in
    (ap some e, rw (sym e) refl, rw (sym e) ok)

open_session_complete :
    (accept : Text → Accept) (token : Text) (s : Session)
    → s.csrf_token ≡ token
    → is_empty token ≡ false
    → accept token ≡ accepted true
    → open_session accept (some token) ≡ returned s
unfolding open_session accept_agreement
open_session_complete accept [] s e full ok = absurd cc
open_session_complete accept (c ∷ t) s e full ok = rw ok (ground arith)

of_on_return :
    {A B : Type 0} (t : Try A) (f : A → Try B) {b : B}
    → on_return t f ≡ returned b
    → (a : A) × (t ≡ returned a) × (f a ≡ returned b)
of_on_return (returned a) f h = (a, refl, h)
of_on_return (raised m) f h = cc

module _ (home : ℕ → Home) (accept : Text → Accept) (s : Session) where
  -- One of the first three requests is served, behind errors of status only, and sets a token with
  -- which the agreement is accepted.
  pub Opens : Type 0
  Opens =
      (n : ℕ) × (n < 3)
      × Reaches home 0 n (some s.csrf_token)
      × (is_empty s.csrf_token ≡ false)
      × (accept s.csrf_token ≡ accepted true)

  opens : new_session home accept ≡ returned s → Opens
  unfolding new_session Opens IsAgreed
  opens h =
      let (token, reached, opened) = of_on_return (get_home home max_session_attempts 0 []) _ h in
      let (n, below, r) = get_home_sound home max_session_attempts 0 [] token reached in
      let (e, full, ok) = open_session_sound accept token s opened in
      (n, below, subst (Reaches home 0 n) e r, full, ok)

  reopens : Opens → new_session home accept ≡ returned s
  unfolding new_session Opens
  reopens (n, below, r, full, ok) =
      rw (get_home_complete home max_session_attempts 0 n [] (some s.csrf_token) below r)
        (open_session_complete accept s.csrf_token s refl full ok)

  -- A session opens just if one of the first three requests for the home page is served, behind errors
  -- of status only (another exception is not tried again), with a token that is not empty and with
  -- which the site accepts the agreement; the session then has that token.
  pub new_session_iff : (new_session home accept ≡ returned s) ↔ Opens
  new_session_iff = (opens, reopens)
