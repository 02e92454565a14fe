-- ===== src/ResultRepo/Results.antt =====
-- ResultRepository: `save_result` and the writes that go through it.
use tools_tele_t_ng.Base.{
  ℕ, Bool, true, false, ◌&&◌, Option, none, some, String, coalesce, ◌==◌, if◌then◌else◌,
}
use tools_tele_t_ng.Models.Clock.{Moment}
use tools_tele_t_ng.Models.Status.{CheckStatus}
use tools_tele_t_ng.Models.Rows.{Key, CheckItem}
use tools_tele_t_ng.Database.{Db, write_items}
use tools_tele_t_ng.ResultRepo.Claims.{Owner, anyone, owner_guard, is_claimed}

-- The keyword arguments of `save_result` that are columns, and `completed`.
pub record Outcome : Type 0 where
  pub status : CheckStatus
  pub attempt_count : Option ℕ
  pub next_retry_at : Option Moment
  pub last_error_type : Option String
  pub last_error_message : Option String
  pub telegram_user_id : Option ℕ
  pub username : Option String
  pub first_name : Option String
  pub last_name : Option String
  pub user_was_online : Option String
  pub cleanup_error : Option String
  pub completed : Bool

-- The defaults of the keyword arguments.
abbrev pub plain : CheckStatus → Outcome
plain status = record {
  status = status;
  attempt_count = none;
  next_retry_at = none;
  last_error_type = none;
  last_error_message = none;
  telegram_user_id = none;
  username = none;
  first_name = none;
  last_name = none;
  user_was_online = none;
  cleanup_error = none;
  completed = false;
}

-- The three guard values of a write: the item's token, and the job with its worker.
pub record Guards : Type 0 where
  pub processing_token : Option Key
  pub owner : Owner

abbrev pub unguarded : Guards
unguarded = record { processing_token = none; owner = anyone }

abbrev pub token_guard : Option Key → CheckItem → Bool
token_guard none i = true
token_guard (some token) i = is_claimed token i

abbrev pub settle_row : Moment → Outcome → CheckItem → CheckItem
settle_row now o i = record i {
  status = o.status;
  attempt_count = coalesce o.attempt_count i.attempt_count;
  next_retry_at = o.next_retry_at;
  last_error_type = o.last_error_type;
  last_error_message = o.last_error_message;
  telegram_user_id = o.telegram_user_id;
  username = o.username;
  first_name = o.first_name;
  last_name = o.last_name;
  user_was_online = o.user_was_online;
  cleanup_error = o.cleanup_error;
  completed_at = if o.completed then some now else none;
  processing_token = none;
  recovery_after = none;
  updated_at = now;
}

unfoldable pub save_result : Moment → ℕ → Outcome → Guards → Db → Db × Bool
save_result now item_id outcome guards db =
    write_items
      (λ i.
        (i.id == item_id)
        && (token_guard guards.processing_token i && owner_guard now guards.owner db i))
      (settle_row now outcome) db

unfoldable pub mark_retry :
    Moment → ℕ → ℕ → Moment → Option String → Option String → Guards → Db → Db × Bool
unfolding save_result
mark_retry now item_id attempt_count next_retry_at error_type error_message guards =
    save_result now item_id
      (record (plain CheckStatus.retry_required) {
        attempt_count = some attempt_count;
        next_retry_at = some next_retry_at;
        last_error_type = error_type;
        last_error_message = error_message;
      })
      guards

unfoldable pub mark_permanent : Moment → ℕ → String → Option String → Db → Db × Bool
unfolding save_result
mark_permanent now item_id error_type error_message =
    save_result now item_id
      (record (plain CheckStatus.permanent_error) {
        last_error_type = some error_type;
        last_error_message = error_message;
        completed = true;
      })
      unguarded
