-- ===== src/Repos/Sound.antt =====
-- internal/repos: what holds of the tables of accounts, refresh tokens and notes.
mod Tests
use go_notes_api.Base.{◌≡◌, All, List, ℕ}
use go_notes_api.Base.Int.{ℤ}
use go_notes_api.Base.Keys.{IsKeyed}
use go_notes_api.Schema.{Tables}
use go_notes_api.Sql.{Mysql}
use go_notes_api.Repos.Closed.{IsClosed, no_notes, no_tokens, no_users, no_grants, no_keys}
use go_notes_api.Repos.Steps.{Later, Later-keeps}
use go_notes_api.Repos.RefreshTokens.Keys.{
  clash, issue-IsKeyed, revoke-IsKeyed, use_and_rotate-IsKeyed,
}
use go_notes_api.Repos.Notes.Deletion.{
  IsBelow, create-IsNumbered, update-IsNumbered, delete-IsNumbered,
}
use go_notes_api.Repos.Users.Keys.{IsEnrolled, create-IsEnrolled}

-- The refresh tokens are unique, the ids of the notes are below the next one, and no two accounts
-- have one email address or an id that is still to come.
pub record IsSound (mysql : Mysql) (t : Tables) : Type 0 where
  pub keyed : IsKeyed (clash mysql) t.refresh_tokens
  pub numbered : All (IsBelow t.next_note) t.notes
  pub enrolled : IsEnrolled mysql t.users t.next_user

-- Whoever the user, whatever the random bytes and whatever the tables are.
abbrev pub Anyone : ℤ → Type 0
Anyone uid = Unit {0}

abbrev pub Anything : List ℕ → Type 0
Anything b = Unit {0}

abbrev pub Anytime : Tables → Type 0
Anytime t = Unit {0}

module _ (mysql : Mysql) where
  notes_closed : IsClosed mysql Anyone Anything (λ t. All (IsBelow t.next_note) t.notes)
  notes_closed = record {
    notes = record {
      create = λ uid title body now d q h. create-IsNumbered uid title body now d h;
      update = λ uid id title body now d q h. update-IsNumbered uid id title body now d h;
      delete = λ uid id now d q h. delete-IsNumbered uid id now d h;
    };
    tokens = no_tokens mysql _ (λ t rows k. k);
    users = no_users mysql _ (λ t rows n k. k);
    grants = no_grants mysql _ (λ t rows k. k);
    keys = no_keys mysql _ (λ t rows k. k);
    log = λ t rows n k. k;
  }

  tokens_closed : IsClosed mysql Anyone Anything (λ t. IsKeyed (clash mysql) t.refresh_tokens)
  tokens_closed = record {
    tokens = record {
      issue = λ b uid exp d fresh h. issue-IsKeyed mysql b uid exp d h;
      rotate = λ token exp b now d fresh h. use_and_rotate-IsKeyed mysql token now d h exp b;
      revoke = λ token d h. revoke-IsKeyed mysql token d h;
    };
    notes = no_notes mysql _ (λ t rows n k. k);
    users = no_users mysql _ (λ t rows n k. k);
    grants = no_grants mysql _ (λ t rows k. k);
    keys = no_keys mysql _ (λ t rows k. k);
    log = λ t rows n k. k;
  }

  users_closed : IsClosed mysql Anyone Anything (λ t. IsEnrolled mysql t.users t.next_user)
  users_closed = record {
    users = record { create = create-IsEnrolled mysql };
    notes = no_notes mysql _ (λ t rows n k. k);
    tokens = no_tokens mysql _ (λ t rows k. k);
    grants = no_grants mysql _ (λ t rows k. k);
    keys = no_keys mysql _ (λ t rows k. k);
    log = λ t rows n k. k;
  }

  -- Whatever operations of the repositories are carried out, in whatever order the requests that
  -- are served at once call them, at whatever times, with whatever random bytes and whichever
  -- statements fail: if the refresh tokens were unique, the ids of all notes below the next one to
  -- be given out, and no two accounts had one email address or an id that was still to come, all
  -- that still holds.
  pub Later-IsSound :
      {t u : Tables} → Later mysql Anyone Anything Anytime t u → IsSound mysql t → IsSound mysql u
  Later-IsSound path h = record {
    keyed = Later-keeps mysql _ _ _ _ tokens_closed (λ t rows k. k) path h.keyed;
    numbered = Later-keeps mysql _ _ _ _ notes_closed (λ t rows k. k) path h.numbered;
    enrolled = Later-keeps mysql _ _ _ _ users_closed (λ t rows k. k) path h.enrolled;
  }
