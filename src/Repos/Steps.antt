-- ===== src/Repos/Steps.antt =====
-- internal/repos: what the operations of the repositories do to the tables, one after the other in
-- whatever order the requests that are being served call them.
use go_notes_api.Base.{◌≡◌, refl, String, List, ℕ}
use go_notes_api.Base.Int.{ℤ}
use go_notes_api.Schema.{AuditLog, UserRole, Tables, Db}
use go_notes_api.Sql.{Mysql}
use go_notes_api.Repos.Notes
use go_notes_api.Repos.Roles
use go_notes_api.Repos.Users
use go_notes_api.Repos.RefreshTokens
use go_notes_api.Repos.IdempotencyGeneric
use go_notes_api.Repos.Closed.{IsClosed, HasAdmin, along}
use go_notes_api.Repos.Frames.{assign-frame, unassign-frame}

-- The notes are of users in `Q`, the tokens of random bytes in `B`, and a role other than the first
-- is given or taken where the tables are in `A`. Any statement of an operation may fail.
module _ (mysql : Mysql) (Q : ℤ → Type 0) (B : List ℕ → Type 0) (A : Tables → Type 0) where
  pub data Step (before after : Tables) : Type 0 where
    creating :
        (uid : ℤ) (title body : String) (now : ℤ) (d : Db)
        → Q uid
        → d.tables ≡ before
        → after ≡ (Notes.create uid title body now d).1.tables
        → Step before after
    updating :
        (uid id : ℤ) (title body : String) (now : ℤ) (d : Db)
        → Q uid
        → d.tables ≡ before
        → after ≡ (Notes.update uid id title body now d).1.tables
        → Step before after
    deleting :
        (uid id now : ℤ) (d : Db)
        → Q uid
        → d.tables ≡ before
        → after ≡ (Notes.delete uid id now d).1.tables
        → Step before after
    issuing :
        (b : List ℕ) (uid exp : ℤ) (d : Db)
        → B b
        → d.tables ≡ before
        → after ≡ (RefreshTokens.issue mysql b uid exp d).1.tables
        → Step before after
    rotating :
        (token : String) (exp : ℤ) (b : List ℕ) (now : ℤ) (d : Db)
        → B b
        → d.tables ≡ before
        → after ≡ (RefreshTokens.use_and_rotate mysql token exp b now d).1.tables
        → Step before after
    revoking :
        (token : String) (d : Db)
        → d.tables ≡ before
        → after ≡ (RefreshTokens.revoke mysql token d).1.tables
        → Step before after
    enrolling :
        (email hash : String) (d : Db)
        → d.tables ≡ before
        → after ≡ (Users.create mysql email hash d).1.tables
        → Step before after
    joining :
        (uid : ℤ) (d : Db)
        → d.tables ≡ before
        → after ≡ (Roles.assign mysql uid "user" d).1.tables
        → Step before after
    assigning :
        (uid : ℤ) (role : String) (d : Db)
        → A before
        → d.tables ≡ before
        → after ≡ (Roles.assign mysql uid role d).1.tables
        → Step before after
    unassigning :
        (uid : ℤ) (role : String) (d : Db)
        → A before
        → d.tables ≡ before
        → after ≡ (Roles.unassign mysql uid role d).1.tables
        → Step before after
    claiming :
        (key : String) (uid : ℤ) (method path hash : String) (now : ℤ) (d : Db)
        → d.tables ≡ before
        → after ≡ (IdempotencyGeneric.claim mysql key uid method path hash now d).1.tables
        → Step before after
    completing :
        (key : String) (uid : ℤ) (res : String) (now : ℤ) (d : Db)
        → d.tables ≡ before
        → after ≡ (IdempotencyGeneric.complete mysql key uid res now d).1.tables
        → Step before after
    logging :
        (rows : List AuditLog) (n : ℕ)
        → after ≡ record before { audit_logs = rows; next_audit = n }
        → Step before after

  pub data Later (t : Tables) : Tables → Type 0 where
    here : Later t t
    next : {u v : Tables} → Later t u → Step u v → Later t v

  -- What a property needs that holds whatever the grants are.
  module _ (K : Tables → Type 0) (closed : IsClosed mysql Q B K)
      (any_grant : (t : Tables) (rows : List UserRole)
        → K t
        → K (record t { user_roles = rows })) where
    moved : {before after t u : Tables} → (K t → K u) → t ≡ before → after ≡ u → K before → K after
    moved keeps from to k = along K to (keeps (along K from k))

    Step-keeps : {before after : Tables} → Step before after → K before → K after
    Step-keeps (creating uid title body now d q from to) =
        moved (closed.notes.create uid title body now d q) from to
    Step-keeps (updating uid id title body now d q from to) =
        moved (closed.notes.update uid id title body now d q) from to
    Step-keeps (deleting uid id now d q from to) =
        moved (closed.notes.delete uid id now d q) from to
    Step-keeps (issuing b uid exp d fresh from to) =
        moved (closed.tokens.issue b uid exp d fresh) from to
    Step-keeps (rotating token exp b now d fresh from to) =
        moved (closed.tokens.rotate token exp b now d fresh) from to
    Step-keeps (revoking token d from to) = moved (closed.tokens.revoke token d) from to
    Step-keeps (enrolling email hash d from to) = moved (closed.users.create email hash d) from to
    Step-keeps (joining uid d from to) = moved (closed.grants.join uid d) from to
    Step-keeps (assigning uid role d a from to) =
        moved (λ k. along K (assign-frame mysql d uid role) (any_grant _ _ k)) from to
    Step-keeps (unassigning uid role d a from to) =
        moved (λ k. along K (unassign-frame mysql d uid role) (any_grant _ _ k)) from to
    Step-keeps (claiming key uid method path hash now d from to) =
        moved (closed.keys.claim key uid method path hash now d) from to
    Step-keeps (completing key uid res now d from to) =
        moved (closed.keys.complete key uid res now d) from to
    Step-keeps {before} (logging rows n to) = λ k. along K to (closed.log before rows n k)

    pub Later-keeps : {t u : Tables} → Later t u → K t → K u
    Later-keeps here k = k
    Later-keeps (next path step) k = Step-keeps step (Later-keeps path k)

-- The steps are themselves a property that the operations keep.
module _ (mysql : Mysql) (Q : ℤ → Type 0) (B : List ℕ → Type 0) where
  pub Later-IsClosed : (t : Tables) → IsClosed mysql Q B (Later mysql Q B (HasAdmin mysql) t)
  Later-IsClosed t = record {
    notes = record {
      create = λ uid title body now d q k. next k (creating uid title body now d q refl refl);
      update = λ uid id title body now d q k. next k (updating uid id title body now d q refl refl);
      delete = λ uid id now d q k. next k (deleting uid id now d q refl refl);
    };
    tokens = record {
      issue = λ b uid exp d fresh k. next k (issuing b uid exp d fresh refl refl);
      rotate = λ token exp b now d fresh k. next k (rotating token exp b now d fresh refl refl);
      revoke = λ token d k. next k (revoking token d refl refl);
    };
    users = record { create = λ email hash d k. next k (enrolling email hash d refl refl) };
    grants = record {
      join = λ uid d k. next k (joining uid d refl refl);
      assign = λ uid role d by k. next k (assigning uid role d by refl refl);
      unassign = λ uid role d by k. next k (unassigning uid role d by refl refl);
    };
    keys = record {
      claim = λ key uid method path hash now d k.
          next k (claiming key uid method path hash now d refl refl);
      complete = λ key uid res now d k. next k (completing key uid res now d refl refl);
    };
    log = λ u rows n k. next k (logging rows n refl);
  }
