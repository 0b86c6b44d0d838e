-- ===== src/Service/Domains/Keeps/Operations.antt =====
-- The operations on domains keep what every store call keeps.
use redxt.Common.{
  ℕ, Bool, true, false, List, [], ◌∷◌, ◌≡◌, refl, Option, none, some, Text, Result, ok, err,
  if◌then◌else◌, All, arith,
}
use redxt.Store.Tables.{Domain, Db, Event}
use redxt.Store.Domains.{verified, domain_by_id}
use redxt.Service.Base.{ServiceError, Call, Service, ◌>>=◌, return, audit, audit_domain}
use redxt.Service.Base.Keeps.{
  ask_keeps, lift_keeps, refuse_keeps, write_keeps, bind_keeps, return_keeps, ask_last_keeps,
}
use redxt.Service.Domains.Environment.{Outside, DomainPolicy, CertManager, Certificate}
use redxt.Service.Domains.Claims.{reload_domain, add_domain}
use redxt.Service.Domains.Verify.{
  check_ownership, issue_certificate, issued, issue_noting, note_failure, with_certificate,
  verification_outcome, verify_domain,
}
use redxt.Service.Domains.Serving.{
  set_domain_purpose, remove_domain, suspend_domain, renew_all, count_renewal, renew_due,
  renew_certificates,
}
use redxt.Service.Domains.Commands.{
  DomainAction, DomainCommand, add, verify, set_purpose, remove, suspend, renew, perform_domain,
  run_domains,
}
use redxt.Service.Domains.Keeps.{StoreKeeps, domain_for_org_keeps, attempt_keeps, lift_last_keeps}

module _ (policy : DomainPolicy) (Seen : Domain → Type 0) (I : Db → Type 0)
    (keeps : StoreKeeps policy Seen I) where
  audit-keeps : (o : ℕ) (e : Event) (a t : ℕ) (db : Db) → I db → I (audit o e a t db).1
  unfolding audit
  audit-keeps o e a t db i = keeps.rows db _ refl i

  audit_domain-keeps : (id : ℕ) (e : Event) (a : ℕ) (db : Db) → I db → I (audit_domain id e a db).1
  unfolding audit_domain
  audit_domain-keeps id e a db i = keeps.rows db _ refl i

  -- Steps that only write to the trail of the domain.
  audit_domain_then :
      {B : Type 0} (id : ℕ) (e : Event) (a : ℕ) (k : Unit {0} → Service B) (db : Db)
      → I db
      → ((db1 : Db) → I db1 → I (k tt db1).1)
      → I ((audit_domain id e a >>= k) db).1
  audit_domain_then id e a k db i h =
      bind_keeps I _ _ db (audit_domain-keeps id e a db i) (λ _ db1 _ i1. h db1 i1)

  audit_then :
      {B : Type 0} (o : ℕ) (e : Event) (a t : ℕ) (k : Unit {0} → Service B) (db : Db)
      → I db
      → ((db1 : Db) → I db1 → I (k tt db1).1)
      → I ((audit o e a t >>= k) db).1
  audit_then o e a t k db i h =
      bind_keeps I _ _ db (audit-keeps o e a t db i) (λ _ db1 _ i1. h db1 i1)

  add_domain-keeps :
      (out : Outside) (call : Call) (org actor : ℕ) (raw purpose : Text) (db : Db)
      → I db
      → I (add_domain out policy call org actor raw purpose db).1
  unfolding add_domain reload_domain
  add_domain-keeps out call org actor raw purpose db i = refuse_keeps I _ _ _ db i (λ _.
      ask_keeps I _ _ db i (λ a _. lift_keeps I _ _ db i (λ named _. refuse_keeps I _ _ _ db i (λ _.
        ask_keeps I _ _ db i (λ held counted. refuse_keeps I _ _ _ db i (λ quota.
          write_keeps I _ _ db i (λ db1 wrote.
            let i1 = keeps.create _ db db1 (ground arith) wrote i in
            ask_keeps I _ _ db1 i1 (λ d _.
              audit_domain_then d.id _ _ _ db1 i1
                (λ db2 i2. audit_then _ _ _ _ _ db2 i2 (λ db3 i3. return_keeps I d db3 i3))))))))))

  issued-keeps :
      (cert : Result Text Certificate) (d : Domain) (db : Db) → I db → I (issued cert d db).1
  issued-keeps (err detail) d db i =
      write_keeps I _ _ db i (λ db1 wrote. lift_last_keeps I _ db1 (keeps.ssl d db db1 wrote i))
  issued-keeps (ok cert) d db i =
      write_keeps I _ _ db i
        (λ db1 wrote. audit_domain-keeps d.id _ _ db1 (keeps.ssl d db db1 wrote i))

  issue_certificate-keeps :
      (certs : Option CertManager) (d : Domain) (db : Db)
      → I db
      → I (issue_certificate certs d db).1
  unfolding issue_certificate
  issue_certificate-keeps none d db i = lift_last_keeps I _ db i
  issue_certificate-keeps (some certs) d db i =
      refuse_keeps I _ _ _ db i (λ _. issued-keeps _ _ db i)

  issue_noting-keeps :
      (certs : Option CertManager) (actor : ℕ) (d : Domain) (db : Db)
      → I db
      → I (issue_noting certs actor d db).1
  unfolding issue_noting
  issue_noting-keeps certs actor d db i =
      attempt_keeps I _ _ db (issue_certificate-keeps certs d db i) noted
    where
      noted :
          (r : Result ServiceError (Unit {0})) (db1 : Db)
          → I db1
          → I (note_failure d.id actor r db1).1
      noted (ok _) db1 i1 = return_keeps I tt db1 i1
      noted (err _) db1 i1 = audit_domain-keeps d.id _ _ db1 i1

  with_certificate-keeps :
      (certs : Option CertManager) (actor : ℕ) (d : Domain) (db : Db)
      → I db
      → I (with_certificate certs actor d db).1
  unfolding with_certificate reload_domain
  with_certificate-keeps certs actor d db i = either d.ssl_enabled
    where
      either :
          (b : Bool)
          → I
              ((if b then issue_noting certs actor d >>= (λ _. reload_domain d.id) else return d)
                db).1
      either true =
          bind_keeps I _ _ db (issue_noting-keeps certs actor d db i)
            (λ _ db1 _ i1. ask_last_keeps I _ db1 i1)
      either false = return_keeps I d db i

  verification_outcome-keeps :
      (out : Outside) (call : Call) (org actor : ℕ) (d : Domain) (o : Option ServiceError) (db : Db)
      → domain_by_id db d.id ≡ some d
      → verified d ≡ false
      → (o ≡ none → Seen d)
      → I db
      → I (verification_outcome out call org actor d o db).1
  unfolding verification_outcome reload_domain
  verification_outcome-keeps out call org actor d (some failure) db found new seen i =
      write_keeps I _ _ db i (λ db1 wrote.
        audit_domain_then _ _ _ _ db1 (keeps.failed d call.now db db1 found new wrote i)
          (λ db2 i2. lift_last_keeps I _ db2 i2))
  verification_outcome-keeps out call org actor d none db found new seen i =
      write_keeps I _ _ db i (λ db1 wrote.
        let i1 = keeps.proved d call.now db db1 found (seen refl) wrote i in
        write_keeps I _ _ db1 i1 (λ db2 activated.
          audit_domain_then _ _ _ _ db2 (keeps.activate d.id db1 db2 activated i1) (λ db3 i3.
            audit_then _ _ _ _ _ db3 i3 (λ db4 i4.
              ask_keeps I _ _ db4 i4 (λ e _. with_certificate-keeps out.certs actor e db4 i4)))))

  verify_domain-keeps :
      (out : Outside) (call : Call) (org actor id : ℕ) (db : Db)
      → ((d : Domain) → check_ownership out d ≡ none → Seen d)
      → I db
      → I (verify_domain out call org actor id db).1
  unfolding verify_domain
  verify_domain-keeps out call org actor id db sees i =
      domain_for_org_keeps I org actor id _ _ db i (λ d found. either d found (verified d) refl)
    where
      either :
          (d : Domain)
          → domain_by_id db d.id ≡ some d
          → (b : Bool) → verified d ≡ b
          → I
              ((if b
                  then return d
                  else verification_outcome out call org actor d (check_ownership out d))
                db).1
      either d found true e = return_keeps I d db i
      either d found false e =
          verification_outcome-keeps out call org actor d _ db found e (sees d) i

  renew_all-keeps :
      (certs : Option CertManager) (ds : List Domain) (n : ℕ) (db : Db)
      → I db
      → I (renew_all certs ds n db).1
  unfolding renew_all
  renew_all-keeps certs [] n db i = return_keeps I n db i
  renew_all-keeps certs (d ∷ ds) n db i =
      attempt_keeps I _ _ db (issue_certificate-keeps certs d db i) (λ r db1 i1.
        bind_keeps I _ _ db1 (counted r db1 i1) (λ m db2 _ i2. renew_all-keeps certs ds m db2 i2))
    where
      counted :
          (r : Result ServiceError (Unit {0})) (db1 : Db) → I db1 → I (count_renewal d.id n r db1).1
      counted (ok _) db1 i1 = return_keeps I _ db1 i1
      counted (err _) db1 i1 = audit_domain_then _ _ _ _ db1 i1 (λ db2 i2. return_keeps I n db2 i2)

  renew_certificates-keeps :
      (out : Outside) (call : Call) (db : Db) → I db → I (renew_certificates out policy call db).1
  unfolding renew_certificates
  renew_certificates-keeps out call db i = either _
    where
      either : (b : Bool) → I ((if b then return 0 else renew_due out.certs policy call) db).1
      either true = return_keeps I 0 db i
      either false = ask_keeps I _ _ db i (λ due _. renew_all-keeps out.certs due 0 db i)

  perform_domain-keeps :
      (out : Outside) (call : Call) (org actor : ℕ) (a : DomainAction) (db : Db)
      → ((d : Domain) → check_ownership out d ≡ none → Seen d)
      → I db
      → I (perform_domain policy out call org actor a db).1
  unfolding perform_domain set_domain_purpose remove_domain suspend_domain
  perform_domain-keeps out call org actor (add raw purpose) db sees i =
      bind_keeps I _ _ db (add_domain-keeps out call org actor raw purpose db i)
        (λ _ db1 _ i1. return_keeps I tt db1 i1)
  perform_domain-keeps out call org actor (verify id) db sees i =
      bind_keeps I _ _ db (verify_domain-keeps out call org actor id db sees i)
        (λ _ db1 _ i1. return_keeps I tt db1 i1)
  perform_domain-keeps out call org actor (set_purpose id purpose) db sees i =
      refuse_keeps I _ _ _ db i (λ _. domain_for_org_keeps I _ _ _ _ _ db i (λ d _.
        write_keeps I _ _ db i (λ db1 wrote.
          audit_domain-keeps _ _ _ db1 (keeps.repurpose d.id purpose db db1 wrote i))))
  perform_domain-keeps out call org actor (remove id) db sees i =
      domain_for_org_keeps I _ _ _ _ _ db i (λ d _.
        write_keeps I _ _ db i
          (λ db1 wrote. audit-keeps _ _ _ _ db1 (keeps.delete d.id db db1 wrote i)))
  perform_domain-keeps out call org actor (suspend id reason) db sees i =
      domain_for_org_keeps I _ _ _ _ _ db i (λ d _.
        write_keeps I _ _ db i
          (λ db1 wrote. audit_domain-keeps _ _ _ db1 (keeps.suspend d.id reason db db1 wrote i)))
  perform_domain-keeps out call org actor renew db sees i =
      bind_keeps I _ _ db (renew_certificates-keeps out call db i)
        (λ _ db1 _ i1. return_keeps I tt db1 i1)

  pub run_domains-keeps :
      (cs : List DomainCommand) (db : Db)
      → All (λ c. (d : Domain) → check_ownership c.outside d ≡ none → Seen d) cs
      → I db
      → I (run_domains policy cs db)
  unfolding run_domains
  run_domains-keeps [] db sees i = i
  run_domains-keeps (c ∷ cs) db sees i =
      run_domains-keeps cs _ sees.1
        (perform_domain-keeps c.outside c.call c.org_id c.actor c.action db sees.0 i)
