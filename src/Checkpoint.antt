-- ===== src/Checkpoint.antt =====
-- telegram_phone_number_checker/checkpoint.py: every number is its own checkpoint.
use tools_tele_t_ng.Base.{ℕ, Bool, Option}
use tools_tele_t_ng.Models.Clock.{Moment, iso_from_offset}
use tools_tele_t_ng.Models.Status.{CheckStatus, is_terminal_status}
use tools_tele_t_ng.Models.Rows.{Key, CheckItem}
use tools_tele_t_ng.Database.{Db}
use tools_tele_t_ng.ResultRepo.Items
use tools_tele_t_ng.ResultRepo.Items.{next_due_item, count_pending_all_statuses}
use tools_tele_t_ng.ResultRepo.Claims
use tools_tele_t_ng.ResultRepo.Claims.{Owner}

unfoldable pub mark_processing : Moment → Key → CheckItem → Owner → Db → Db × Option Key
mark_processing now token item owner = Claims.mark_processing now token item.id owner

unfoldable pub is_terminal : CheckStatus → Bool
is_terminal status = is_terminal_status status

unfoldable pub next_item : Moment → Key → Db → Option CheckItem
next_item now job_id db = next_due_item now job_id db

unfoldable pub recover_interrupted : Moment → Key → ℕ → Db → Db × ℕ
recover_interrupted now job_id grace =
    Claims.recover_interrupted now job_id (iso_from_offset now grace)

unfoldable pub count_pending : Moment → Key → Db → ℕ
count_pending now job_id db = count_pending_all_statuses now job_id db

unfoldable pub has_unfinished_items : Key → Db → Bool
has_unfinished_items job_id db = Items.has_unfinished_items job_id db

unfoldable pub get_next_retry_at : Key → Db → Option Moment
get_next_retry_at job_id db = Items.get_next_retry_at job_id db
