-- ===== src/Service/Domains/Proofs.antt =====
-- No domain is served without a proof of ownership.
use redxt.Common.{
  differ-keep, ℤ, Bool, true, false, List, [], ◌++◌, ◌≡◌, ◌⊎◌, inl, inr, refl, none, some, Option,
  Text, bytes, ◌=ᵗ◌, trim_prefix, trim_space, any, if◌then◌else◌, All, All-map, All-append,
  All-keep, All-update, All-find, Result, ok, err, arith,
}
use redxt.User.Domain.{wildcard_prefix}
use redxt.Store.Tables.{Domain, Db}
use redxt.Store.Domains.{
  verified, active, servable, pending_row, domain_by_id, domain_by_name, create_domain,
  update_domain_purpose, record_verification_attempt, activate_domain, suspend_domain_row,
  set_domain_ssl, attempted, verification_verified, verification_failed, update_domains,
}
use redxt.Store.Domains.Laws.{
  ids_differ, same_key, ids_differ-append, ids_differ-update, All-update_found, update_domains_ok,
  create_domain_ok, delete_domain_ok,
}
use redxt.Service.Domains.Environment.{Outside, DomainPolicy, DnsError, no_such_host, lookup_failed}
use redxt.Service.Domains.Verify.{check_ownership, owned, verification_name}
use redxt.Service.Domains.Serving.{resolve_servable_domain, host_name, serving}
use redxt.Service.Domains.Commands.{DomainCommand, run_domains}
use redxt.Service.Domains.Keeps.{StoreKeeps}
use redxt.Service.Domains.Keeps.Operations.{run_domains-keeps}

serving_ok :
    (o : Option Domain) (d : Domain) → serving o ≡ ok d → (o ≡ some d) × (servable d ≡ true)
serving_ok none d h = cc
serving_ok (some e) d h = ground arith

not_refused :
    {E A : Type 0} (e : E) (b : Bool) (r : Result E A) (a : A)
    → (if b then err e else r) ≡ ok a
    → r ≡ ok a
not_refused e true r a h = cc
not_refused e false r a h = h

-- A host that resolves names a stored domain that is servable.
resolve_ok :
    (db : Db) (host : Text) (d : Domain)
    → resolve_servable_domain db host ≡ ok d
    → (domain_by_name db (host_name host) ≡ some d) × (servable d ≡ true)
unfolding resolve_servable_domain
resolve_ok db host d h = serving_ok _ d (not_refused _ (host_name host =ᵗ []) _ d h)

module _ (P : Text → Text → Type 0) where
  abbrev pub Shown : Domain → Type 0
  Shown d = P (trim_prefix d.name wildcard_prefix) d.verification_token

  -- A verified row has been shown, and an active row is verified.
  abbrev pub IsProven : Domain → Type 0
  IsProven d = ((verified d ≡ false) ⊎ Shown d) × ((active d ≡ false) ⊎ (verified d ≡ true))

  pub record Proven (db : Db) : Type 0 where
    pub ids : ids_differ db.domains ≡ true
    pub rows : All IsProven db.domains

  of_rows-Proven :
      (db : Db) (ds : List Domain)
      → db.domains ≡ ds
      → ids_differ ds ≡ true
      → All IsProven ds
      → Proven db
  of_rows-Proven db ds e a b = record { ids = rw e a; rows = rw e b }

  pending-IsProven : (d : Domain) → IsProven (pending_row d)
  unfolding verified ◌=ᵗ◌
  pending-IsProven d = (inl refl, inl refl)

  failed-IsProven :
      (now : ℤ) (d : Domain)
      → verified d ≡ false
      → IsProven d
      → IsProven (attempted verification_failed now d)
  unfolding verified ◌=ᵗ◌
  failed-IsProven now d new (a, inl e) = (inl refl, inl e)
  failed-IsProven now d new (a, inr v) = cc

  proved-IsProven :
      (now : ℤ) (d : Domain) → Shown d → IsProven (attempted verification_verified now d)
  unfolding verified ◌=ᵗ◌
  proved-IsProven now d seen = (inr seen, inr refl)

  -- An update of all rows that `p` selects.
  update-Proven :
      (p : Domain → Bool) (f : Domain → Domain) (db db1 : Db)
      → ((d : Domain) → (f d).id ≡ d.id)
      → ((d : Domain) → p d ≡ true → IsProven d → IsProven (f d))
      → update_domains p f db ≡ ok db1
      → Proven db
      → Proven db1
  update-Proven p f db db1 same good h i =
      of_rows-Proven db1 _ (update_domains_ok p f db db1 h)
        (ids_differ-update p f same db.domains i.ids)
        (All-update IsProven p f db.domains good i.rows)

  create-Proven : (d : Domain) (db db1 : Db) → create_domain d db ≡ ok db1 → Proven db → Proven db1
  create-Proven d db db1 h i =
      let (e, fresh) = create_domain_ok d db db1 h in
      of_rows-Proven db1 _ e (ids_differ-append db.domains (pending_row d) fresh i.ids)
        (All-append IsProven db.domains _ i.rows (pending-IsProven d, tt))

  -- An attempt on the row of an id.
  attempt-Proven :
      (status : Text) (d : Domain) (now : ℤ) (db db1 : Db)
      → domain_by_id db d.id ≡ some d
      → IsProven (attempted status now d)
      → record_verification_attempt d.id status now db ≡ ok db1
      → Proven db
      → Proven db1
  unfolding domain_by_id record_verification_attempt
  attempt-Proven status d now db db1 found good h i =
      of_rows-Proven db1 _ (update_domains_ok _ _ db db1 h)
        (ids_differ-update _ _ (λ e. refl) db.domains i.ids)
        (All-update_found IsProven _ d.id db.domains d i.ids found good i.rows)

  row-IsProven : (d : Domain) (db : Db) → domain_by_id db d.id ≡ some d → Proven db → IsProven d
  unfolding domain_by_id
  row-IsProven d db found i = All-find IsProven _ db.domains d found i.rows

  keeps-Proven : (policy : DomainPolicy) → StoreKeeps policy Shown Proven
  unfolding update_domain_purpose activate_domain suspend_domain_row set_domain_ssl verified ◌=ᵗ◌
  keeps-Proven policy = record {
    rows = λ db db1 e i. of_rows-Proven db1 _ e i.ids i.rows;
    create = λ d db db1 _ h i. create-Proven d db db1 h i;
    failed = λ d now db db1 found new h i.
        attempt-Proven verification_failed d now db db1 found
          (failed-IsProven now d new (row-IsProven d db found i)) h i;
    proved = λ d now db db1 found seen h i.
        attempt-Proven verification_verified d now db db1 found (proved-IsProven now d seen) h i;
    activate = λ id db db1 h i.
        update-Proven _ _ db db1 (λ d. refl) (λ d on g. (g.0, inr (ground arith))) h i;
    repurpose = λ id purpose db db1 h i. update-Proven _ _ db db1 (λ d. refl) (λ d _ g. g) h i;
    suspend =
        λ id reason db db1 h i. update-Proven _ _ db db1 (λ d. refl) (λ d _ g. (g.0, inl refl)) h i;
    ssl = λ d db db1 h i. update-Proven _ _ db db1 (λ e. refl) (λ e _ g. g) h i;
    delete = λ id db db1 h i.
        of_rows-Proven db1 _ (delete_domain_ok id db db1 h)
          (differ-keep same_key _ db.domains i.ids) (All-keep IsProven _ db.domains i.rows);
  }

  -- Ownership was shown to a resolver whose answers satisfy `P`.
  check_ownership-Shown :
      (out : Outside) (d : Domain)
      → ((name value : Text) (values : List Text)
          → out.lookup_txt (bytes "_verify." ++ name) ≡ ok values
          → any (λ v. trim_space v =ᵗ value) values ≡ true
          → P name value)
      → check_ownership out d ≡ none
      → Shown d
  unfolding check_ownership
  check_ownership-Shown out d answers h = answered _ refl h
    where
      answered :
          (r : Result DnsError (List Text))
          → out.lookup_txt (verification_name d) ≡ r
          → owned (verification_name d) d.verification_token r ≡ none
          → Shown d
      answered (err no_such_host) e h = cc
      answered (err lookup_failed) e h = cc
      answered (ok values) e h = answers _ _ values e (ground arith)

  servable-Shown : (d : Domain) → servable d ≡ true → IsProven d → Shown d
  unfolding servable
  servable-Shown d on (inl off, b) = cc
  servable-Shown d on (inr seen, b) = seen

  resolved-Shown :
      (db : Db) (host : Text) (d : Domain)
      → resolve_servable_domain db host ≡ ok d
      → Proven db
      → Shown d
  unfolding domain_by_name
  resolved-Shown db host d h i =
      let (found, on) = resolve_ok db host d h in
      servable-Shown d on (All-find IsProven _ db.domains d found i.rows)

  -- Whatever sequence of additions, verifications, changes of purpose, removals, suspensions and
  -- renewals is attempted, if every TXT record that a resolver shows at _verify.<name> during it
  -- satisfies P with that name, and beforehand ids differ, every verified domain satisfies P (its
  -- name without a leading *., its token) and every active one is verified, then whatever a Host
  -- header resolves to afterwards is a domain whose name and token satisfy P.
  pub resolved_is_proven :
      (policy : DomainPolicy) (cs : List DomainCommand) (db : Db) (host : Text) (d : Domain)
      → All
          (λ c.
            (name value : Text) (values : List Text)
            → c.outside.lookup_txt (bytes "_verify." ++ name) ≡ ok values
            → any (λ v. trim_space v =ᵗ value) values ≡ true
            → P name value)
          cs
      → Proven db
      → resolve_servable_domain (run_domains policy cs db) host ≡ ok d
      → P (trim_prefix d.name (bytes "*.")) d.verification_token
  resolved_is_proven policy cs db host d answers i h = resolved-Shown _ host d h (
      run_domains-keeps policy Shown Proven (keeps-Proven policy) cs db
        (All-map (λ c a d. check_ownership-Shown c.outside d a) cs answers) i)
