-- ===== src/Login/Saved.antt =====
-- The credentials that a login leaves.
use usezombie.Prelude.{
  ℕ, ◌≡◌, refl, ap, String, Text, Bool, true, false, not, ◌||◌, Option, none, some, List, [], ◌∷◌,
  ◌⊎◌, inl, inr,
}
use usezombie.Json.{Json, null, bool, num, str, arr, obj, Number, get}
use usezombie.Cli.Errors.{CliError}
use usezombie.Cli.Effects.{Outcome, succeeded, failed, request}
use usezombie.Cli.Store.{
  Disk, Action, File, holds, Credentials, WorkspaceItem, Write, stored, torn, refused, next_write,
  later_writes, write_json, result_of, save_access_token, clear_access_token, get_access_token,
  load_credentials, token_of, lift,
}
use usezombie.Cli.Triples.{Triple, Ends, >>=-Triple, pure-Triple, raise-Triple, lift-Triple}
use usezombie.Login.{idempotency_check}
use usezombie.Login.Flow.{
  LoginFlags, Terminal, Server, Machine, or_roll_back, validated, map_error, check_existing,
  resolve_direct_token, ping_me, hydrate, save_direct_token, persist_and_ping, issued_token,
  complete_verification_branch, login_with, login_core, login_effect, name_or_default, is_some,
  remap_transport_errors,
}
use usezombie.Workspaces.Hydration.{
  hydrate_workspaces_after_login, save_items, saved_or_warned, nothing, warned, normalize_items,
  items_or_empty,
}

-- The token in a credentials file.
abbrev pub saved : File Credentials → Option Text
saved (holds c) = c.token
saved _ = none

module _ {Response : Type 0} (machine : Machine) (server : Server Response) where
  -- The file holds a token with which the API has answered.
  abbrev pub IsAccepted : File Credentials → Type 0
  IsAccepted f =
      (token : Text) × (saved f ≡ some token) × (ping_me machine server token ≡ succeeded tt)

  -- The file of before the login, no token, or a token with which the API has answered.
  abbrev pub IsSafe : File Credentials → File Credentials → Type 0
  IsSafe before f = (f ≡ before) ⊎ (saved f ≡ none) ⊎ IsAccepted f

  module _ (before : File Credentials) (writes : List Write) where
    abbrev Begun : Disk → Type 0
    Begun d = (d.credentials ≡ before) × (d.writes ≡ writes)

    abbrev Done : {A : Type 0} → A → Disk → Type 0
    Done _ d = IsAccepted d.credentials

    abbrev Stopped : CliError → Disk → Type 0
    Stopped _ d = writes ≡ [] → IsSafe before d.credentials

    abbrev Persisted : Text → Disk → Type 0
    Persisted token d = (saved d.credentials ≡ some token) × (d.writes ≡ later_writes writes)

    written :
        (w : Write) (failure : String) (c : Credentials) (token : Text) (d : Disk)
        → c.token ≡ some token
        → Begun d
        → Ends
            (λ (_ : Unit). Persisted token)
            Stopped
            (
              result_of failure w,
              record d {
                credentials = write_json w c d.credentials;
                writes = later_writes d.writes;
              },
            )
    written stored failure c token d e b = (e, ap later_writes b.1)
    written torn failure c token d e b = λ h. inr (inl refl)
    written refused failure c token d e b = λ h. inl b.0

    save-Triple :
        (token : Text) (session_id : Option String)
        → Triple Begun
            (save_access_token machine.now token session_id (some machine.api_url))
            (λ _. Persisted token)
            Stopped
    unfolding save_access_token
    save-Triple token session_id = record {
      run = λ d b. written (next_write d.writes) _ _ token d refl b;
    }

    rolled_back :
        {A : Type 0} (o : Outcome A) (token : Text)
        → ping_me machine server token ≡ validated o
        → Triple (Persisted token) (or_roll_back machine.now (validated o)) Done Stopped
    unfolding clear_access_token
    rolled_back (succeeded a) token e = pure-Triple tt (λ d p. (token, p.0, e))
    rolled_back (failed err) token e = record { run = λ d p h. rw (p.1, h) (inr (inl refl)) }

    hydrated :
        (r : Outcome Unit × Disk)
        → IsAccepted r.1.credentials
        → Ends Done Stopped (saved_or_warned r)
    hydrated (succeeded a, d) h = h
    hydrated (failed err, d) h = h

    save_items-Triple :
        (items : List WorkspaceItem) → Triple (Done tt) (save_items items) Done Stopped
    unfolding save_items
    save_items-Triple [] = pure-Triple nothing (λ d h. h)
    save_items-Triple (item ∷ items) = record { run = λ d h. hydrated _ h }

    hydrated-Triple :
        (is_finite : Number → Bool) (o : Outcome Json) (now : ℕ)
        → Triple (Done tt) (hydrate_workspaces_after_login is_finite o now) Done Stopped
    unfolding hydrate_workspaces_after_login
    hydrated-Triple is_finite (failed err) now = pure-Triple (warned err) (λ d h. h)
    hydrated-Triple is_finite (succeeded null) now = raise-Triple _ (λ d h e. inr (inr h))
    hydrated-Triple is_finite (succeeded (bool b)) now = save_items-Triple []
    hydrated-Triple is_finite (succeeded (num n)) now = save_items-Triple []
    hydrated-Triple is_finite (succeeded (str t)) now = save_items-Triple []
    hydrated-Triple is_finite (succeeded (arr vs)) now = save_items-Triple []
    hydrated-Triple is_finite (succeeded (obj fs)) now =
        save_items-Triple (normalize_items is_finite now (items_or_empty (get "items" (obj fs))))

    hydrate-Triple : (token : Text) → Triple (Done tt) (hydrate machine server token) Done Stopped
    unfolding hydrate
    hydrate-Triple token =
        >>=-Triple
          (hydrated-Triple machine.is_finite
            (request machine.show machine.thrown machine.api_url (server.workspaces token))
            machine.now)
          (λ u. pure-Triple tt (λ d h. h))

    -- A step that does not touch the disk.
    abbrev Waiting : {A : Type 0} → Action A → Type 0
    Waiting m = Triple Begun m (λ _. Begun) Stopped

    lifted : {A : Type 0} (o : Outcome A) (d : Disk) → Begun d → Ends (λ _. Begun) Stopped (o, d)
    lifted (succeeded a) d b = b
    lifted (failed err) d b = λ h. inl b.0

    lift-Waiting : {A : Type 0} (o : Outcome A) → Waiting (lift o)
    lift-Waiting o = lift-Triple o (lifted o)

    get_access_token-Waiting : Waiting get_access_token
    unfolding get_access_token
    get_access_token-Waiting =
        >>=-Triple {m = load_credentials}
          (record { run = λ d b. lifted (load_credentials d).0 d b })
          (λ c. pure-Triple (token_of c) (λ d b. b))

    check_existing-Waiting :
        (force no_input : Bool) (answer : Option Text)
        → Waiting (check_existing force no_input answer)
    unfolding check_existing
    check_existing-Waiting true no_input answer = pure-Triple tt (λ d b. b)
    check_existing-Waiting false no_input answer =
        >>=-Triple get_access_token-Waiting
          (λ existing. lift-Waiting (idempotency_check false no_input (is_some existing) answer).0)

    pinged :
        (token : Text) (o : Outcome Unit)
        → ping_me machine server token ≡ o
        → Triple Begun
            (lift o)
            (λ _ d. Begun d × (ping_me machine server token ≡ succeeded tt))
            Stopped
    pinged token (succeeded u) e = lift-Triple _ (λ d b. (b, e))
    pinged token (failed err) e = lift-Triple _ (λ d b h. inl b.0)

    accepted :
        (token : Text) (r : Outcome Unit × Disk)
        → ping_me machine server token ≡ succeeded tt
        → Ends (λ _. Persisted token) Stopped r
        → Ends Done Stopped r
    accepted token (succeeded u, d) e p = (token, p.0, e)
    accepted token (failed err, d) e p = p

    kept :
        (token : Text) (session_id : Option String)
        → Triple
            (λ d. Begun d × (ping_me machine server token ≡ succeeded tt))
            (save_access_token machine.now token session_id (some machine.api_url))
            Done
            Stopped
    kept token session_id = record {
      run = λ d h. accepted token _ h.1 ((save-Triple token session_id).run d h.0);
    }

    save_direct_token-Triple :
        (token : Text) → Triple Begun (save_direct_token machine server token) Done Stopped
    unfolding save_direct_token
    save_direct_token-Triple token =
        >>=-Triple (pinged token (ping_me machine server token) refl)
          (λ u. >>=-Triple (kept token none) (λ v. hydrate-Triple token))

    branch-Triple :
        (session_id : String) (no_input : Bool) (lines : List (Option Text))
        → Triple Begun
            (complete_verification_branch machine server session_id no_input lines)
            Done
            Stopped
    unfolding complete_verification_branch persist_and_ping ping_me
    branch-Triple session_id no_input lines =
        >>=-Triple (lift-Waiting (issued_token machine server session_id no_input lines)) (λ token.
          >>=-Triple
            (>>=-Triple (save-Triple token (some session_id)) (λ u.
              rolled_back
                (request machine.show machine.thrown machine.api_url (server.billing token)) token
                refl))
            (λ v. hydrate-Triple token))

    login_with-Triple :
        (flags : LoginFlags) (terminal : Terminal) (direct : Option Text)
        → Triple Begun (login_with machine server flags terminal direct) Done Stopped
    login_with-Triple flags terminal (some token) = save_direct_token-Triple token
    login_with-Triple flags terminal none =
        >>=-Triple
          (lift-Waiting (
            request machine.show machine.thrown machine.api_url
              (server.create_session (name_or_default machine server flags.token_name))))
          (λ session_id. branch-Triple session_id flags.no_input terminal.lines)

    login_core-Triple :
        (flags : LoginFlags) (terminal : Terminal)
        → Triple Begun (login_core machine server flags terminal) Done Stopped
    unfolding login_core
    login_core-Triple flags terminal =
        >>=-Triple
          (check_existing-Waiting flags.force (flags.no_input || not terminal.is_tty)
            terminal.answer)
          (λ u.
            >>=-Triple (lift-Waiting (resolve_direct_token flags terminal))
              (λ direct. login_with-Triple flags terminal direct))

  -- After a login that succeeds the file holds a token with which the API has answered; after one
  -- that fails without a failed write it is the file of before, holds no token, or holds such a token.
  abbrev pub LeavesSafe : File Credentials → List Write → Outcome Unit × Disk → Type 0
  LeavesSafe before writes (succeeded u, d) = IsAccepted d.credentials
  LeavesSafe before writes (failed err, d) = writes ≡ [] → IsSafe before d.credentials

  remapped :
      (before : File Credentials) (writes : List Write) (r : Outcome Unit × Disk)
      → Ends (Done before writes) (Stopped before writes) r
      → LeavesSafe before writes (map_error remap_transport_errors r.0, r.1)
  remapped before writes (succeeded u, d) h = h
  remapped before writes (failed err, d) h = h

  -- Whatever the flags, the input, the files and the answers of the server: after a login that
  -- succeeds the credentials file holds a token with which the API has answered the request of the
  -- billing; after a login that fails, while every write succeeds, it is as it was before, or holds no
  -- token, or holds a token with which the API has answered.
  pub login_effect-LeavesSafe :
      (flags : LoginFlags) (terminal : Terminal) (d : Disk)
      → LeavesSafe d.credentials d.writes (login_effect machine server flags terminal d)
  unfolding login_effect
  login_effect-LeavesSafe flags terminal d =
      remapped d.credentials d.writes (login_core machine server flags terminal d)
        ((login_core-Triple d.credentials d.writes flags terminal).run d (refl, refl))
