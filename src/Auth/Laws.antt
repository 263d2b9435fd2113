-- ===== src/Auth/Laws.antt =====
-- Who is logged in.
use vanguard_settlement_engi.Base.{
  ℕ, ⊤, String, Bool, true, false, not, Option, none, some, List, [], ◌∷◌, find?, ◌≡◌, ◌≢◌, refl,
  ◌∙◌, arith, subst,
}
use vanguard_settlement_engi.Domain.{JwtPayload}
use vanguard_settlement_engi.Errors.{
  Thrown, Result, ok, err, account_inactive, database, connection_failure,
}
use vanguard_settlement_engi.Database.{Stmt, OrganisationCredential}
use vanguard_settlement_engi.Database.Session.{
  World, M, ◌>>=◌, pure, throw_if, try_catch, pool_query, external_of, on_committed,
}
use vanguard_settlement_engi.Database.Quiet.{Reads}
use vanguard_settlement_engi.Database.Guards.{Checked, read-Ensures}
use vanguard_settlement_engi.Repositories.Organisations
use vanguard_settlement_engi.Repositories.Credentials
use vanguard_settlement_engi.Repositories.Credentials.{has_email}
use vanguard_settlement_engi.Repositories.Reads.{organisation-Reads, credential-Reads}
use vanguard_settlement_engi.Auth.Service.{
  AuthResult, admit, decide_login, login, hash_to_compare, name_or_empty, build_auth_result,
}

find?-holds : {A : Type 0} (p : A → Bool) (xs : List A) (a : A) → find? p xs ≡ some a → p a ≡ true
find?-holds p [] a h = cc
find?-holds p (x ∷ xs) a h = ground (arith, find?-holds p xs a)

-- Every result has `Q`, and every error `E`.
record Answers {A : Type 0} (m : M A) (Q : A → Type 0) (E : Thrown → Type 0) : Type 0 where
  returns : (w v : World) (a : A) → m w ≡ (ok a, v) → Q a
  raises : (w v : World) (e : Thrown) → m w ≡ (err e, v) → E e

module _ (E : Thrown → Type 0) where
  pure-Answers : {A : Type 0} (Q : A → Type 0) (a : A) → Q a → Answers (pure a) Q E
  pure-Answers Q a q = record {
    returns = λ w v b h. subst Q (ground arith) q;
    raises = λ w v e h. cc;
  }

  throw_if-Answers :
      (b : Bool) (e : Thrown) → (b ≡ true → E e) → Answers {A = ⊤} (throw_if b e) (λ _. b ≡ false) E
  throw_if-Answers true e k = record {
    returns = λ w v a h. cc;
    raises = λ w v x h. subst E (ground arith) (k refl);
  }
  throw_if-Answers false e k = record { returns = λ w v a h. refl; raises = λ w v x h. cc }

  module _ {A B : Type 0} (m : M A) (P : A → Type 0) (f : A → M B) (Q : B → Type 0)
      (first : Answers m P E) (second : (a : A) → P a → Answers (f a) Q E) where
    abbrev bound : Result A × World → Result B × World
    bound x = elim x.0 [ ok a ↦ f a x.1 | err e ↦ (err e, x.1) ]

    returned : (w v : World) (b : B) (x : Result A × World) → m w ≡ x → bound x ≡ (ok b, v) → Q b
    returned w v b (ok a, u) q h = (second a (first.returns w u a q)).returns u v b h
    returned w v b (err e, u) q h = cc

    raised :
        (w v : World) (e : Thrown) (x : Result A × World) → m w ≡ x → bound x ≡ (err e, v) → E e
    raised w v e (ok a, u) q h = (second a (first.returns w u a q)).raises u v e h
    raised w v e (err x, u) q h = subst E (ground arith) (first.raises w u x q)

    >>=-Answers : Answers (m >>= f) Q E
    >>=-Answers = record {
      returns = λ w v b h. returned w v b (m w) refl h;
      raises = λ w v e h. raised w v e (m w) refl h;
    }

abbrev NotInactive : Thrown → Type 0
NotInactive e = e ≢ account_inactive

module _ {A : Type 0} (s : Stmt A) (reads : Reads s) where
  read_raises :
      (fs : List Bool) (w v : World) (e : Thrown)
      → external_of fs (database connection_failure) (on_committed s) w ≡ (err e, v)
      → NotInactive e
  read_raises [] w v e h = absurd (ground (arith, reads.reads w.committed))
  read_raises (true ∷ fs) w v e h = λ k. cc
  read_raises (false ∷ fs) w v e h = absurd (ground (arith, reads.reads w.committed))

  pool_query-Answers : Answers (pool_query s) (λ _. ⊤) NotInactive
  unfolding pool_query
  pool_query-Answers = record {
    returns = λ w v a h. tt;
    raises = λ w v e h. read_raises w.faults w v e h;
  }

swallowed-Answers : (m : M ⊤) → Answers {A = ⊤} (try_catch m (λ e. pure tt)) (λ _. ⊤) NotInactive
swallowed-Answers m = record { returns = λ w v a h. tt; raises = λ w v e h. go (m w) v e h }
  where
    go :
        (x : Result ⊤ × World) (v : World) (e : Thrown)
        → ◌≡◌ {A = Result ⊤ × World}
            (elim x.0 [ ok a ↦ (ok a, x.1) | err _ ↦ (pure tt) x.1 ])
            (err e, v)
        → NotInactive e
    go (ok a, u) v e h = cc
    go (err x, u) v e h = cc

module _ (sign : JwtPayload → String) where
  -- The result is the credential's own.
  abbrev pub IsFor : OrganisationCredential → AuthResult → Type 0
  IsFor c r =
      (r.org_id ≡ c.org_id)
      × (r.role ≡ c.role)
      × (r.token
          ≡ sign (record { sub = c.org_id; email = c.email; role = c.role; org_id = c.org_id }))

  admit-Answers :
      (c : OrganisationCredential) (now : ℕ)
      → c.is_active ≡ true
      → Answers (admit sign c now) (IsFor c) NotInactive
  admit-Answers c now active =
      >>=-Answers NotInactive _ _ _ (IsFor c)
        (throw_if-Answers NotInactive (not c.is_active) account_inactive
          (λ h. absurd (ground arith)))
        λ _ _.
          >>=-Answers NotInactive _ _ _ (IsFor c)
            (swallowed-Answers (pool_query (Credentials.record_login c.org_id now)))
            λ _ _.
              >>=-Answers NotInactive _ _ _ (IsFor c)
                (pool_query-Answers (Organisations.find_by_id c.org_id)
                  (organisation-Reads c.org_id))
                λ org _.
                  pure-Answers NotInactive (IsFor c)
                    (build_auth_result sign c.org_id c.email c.role (name_or_empty org))
                    (refl, refl, refl)

  -- The credential that is found decides.
  abbrev Granted : Option OrganisationCredential → Bool → AuthResult → Type 0
  Granted found valid r =
      (c : OrganisationCredential) × (found ≡ some c) × (valid ≡ true) × IsFor c r

  decide_login-Answers :
      (found : Option OrganisationCredential) (valid : Bool) (now : ℕ)
      → ((c : OrganisationCredential) → found ≡ some c → c.is_active ≡ true)
      → Answers (decide_login sign found valid now) (Granted found valid) NotInactive
  decide_login-Answers none valid now active = record {
    returns = λ w v a h. cc;
    raises = λ w v e h k. cc;
  }
  decide_login-Answers (some c) false now active = record {
    returns = λ w v a h. cc;
    raises = λ w v e h k. cc;
  }
  decide_login-Answers (some c) true now active =
      let answers = admit-Answers c now (active c refl) in
      record {
        returns = λ w v a h. (c, refl, refl, answers.returns w v a h);
        raises = answers.raises;
      }

  module _ (compare : String → String → Bool) (email password : String) (now : ℕ) (w : World) where
    abbrev row : Option OrganisationCredential
    row = find? (has_email email) w.committed.organisation_credentials

    abbrev behind : Result (Option OrganisationCredential) × World → Result AuthResult × World
    behind x = elim x.0 [
      | ok found ↦ decide_login sign found (compare password (hash_to_compare found)) now x.1
      | err e ↦ (err e, x.1)
    ]

    row_active : (c : OrganisationCredential) → row ≡ some c → c.is_active ≡ true
    row_active c h =
        ground (arith, find?-holds (has_email email) w.committed.organisation_credentials c h)

    -- what the first query gives
    abbrev FirstRead : Result (Option OrganisationCredential) × World → Type 0
    FirstRead x = Checked (λ found t. ⊤ × (Credentials.find_by_email email t ≡ ok (found, t))) w x

    first_read : w.tx ≡ none → FirstRead (pool_query (Credentials.find_by_email email) w)
    first_read closed =
        (read-Ensures (λ _. ⊤) (Credentials.find_by_email email) (credential-Reads email)).ensures w
          closed tt

    to_row :
        (found : Option OrganisationCredential)
        → Credentials.find_by_email email w.committed ≡ ok (found, w.committed)
        → row ≡ found
    unfolding Credentials.find_by_email
    to_row found h = ground arith

    granted :
        (x : Result (Option OrganisationCredential) × World) (r : AuthResult) (v : World)
        → FirstRead x
        → behind x ≡ (ok r, v)
        → (c : OrganisationCredential) × (row ≡ some c)
          × (compare password c.password_hash ≡ true)
          × IsFor c r
    granted (err e, u) r v k h = cc
    granted (ok found, u) r v (_, k) h =
        let same = to_row found k in
        let (c, is, valid, mine) =
          (decide_login-Answers found (compare password (hash_to_compare found)) now
              (λ c q. row_active c (same ∙ q))).returns
            u v r h in
        (c, same ∙ is, ground arith, mine)

    denied :
        (x : Result (Option OrganisationCredential) × World) (e : Thrown) (v : World)
        → pool_query (Credentials.find_by_email email) w ≡ x
        → FirstRead x
        → behind x ≡ (err e, v)
        → NotInactive e
    denied (err x, u) e v q k h = subst NotInactive (ground arith) (
        (pool_query-Answers (Credentials.find_by_email email) (credential-Reads email)).raises w u x
          q)
    denied (ok found, u) e v q (_, k) h =
        (decide_login-Answers found (compare password (hash_to_compare found)) now
            (λ c p. row_active c (to_row found k ∙ p))).raises
          u v e h

    -- Who is logged in has an active credential with the e-mail address, whose hash the password
    -- matches, and gets a token for its organisation and role.
    pub login-IsFor :
        (r : AuthResult) (v : World)
        → w.tx ≡ none
        → login sign compare email password now w ≡ (ok r, v)
        → (c : OrganisationCredential) × (find?
              (has_email email)
              w.committed.organisation_credentials
            ≡ some c)
          × (compare password c.password_hash ≡ true)
          × IsFor c r
    unfolding login
    login-IsFor r v closed h =
        granted (pool_query (Credentials.find_by_email email) w) r v (first_read closed) h

    -- No login throws `AccountInactiveError`, whatever fails: a credential that is not active is not
    -- found.
    login-never_inactive :
        (e : Thrown) (v : World)
        → w.tx ≡ none
        → login sign compare email password now w ≡ (err e, v)
        → e ≢ account_inactive
    unfolding login
    login-never_inactive e v closed h =
        denied (pool_query (Credentials.find_by_email email) w) e v refl (first_read closed) h
