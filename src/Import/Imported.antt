-- ===== src/Import/Imported.antt =====
-- The items and the counters that `_create_job_with_numbers` leaves.

use tools_tele_t_ng.Base.{
  ◌+◌, length_of, ◌≡◌, map, select_where, is_null, ◌≤◌, Option, String, List, ◌++◌,
}
use tools_tele_t_ng.Models.Clock.{Moment}
use tools_tele_t_ng.Models.Rows.{Key}
use tools_tele_t_ng.Database.{Db}
use tools_tele_t_ng.JobRepo.Jobs
use tools_tele_t_ng.JobRepo.Stats.{reconcile_stats}
use tools_tele_t_ng.ResultRepo.Items.{count, all_items}
use tools_tele_t_ng.Import.Create.{Sorted}
use tools_tele_t_ng.Import.Contents.{told, valid_phone, invalid_phone}
use tools_tele_t_ng.Import.Sorting.{IsDistinct, AreNormal, AreKept}

-- What the creation of a job with phones leaves. The items of the job are, in this order, those of the
-- phones that are kept and those of the texts without a normal form.
pub record IsImported (normalize : String → Option String) (job_id : Key) (now : Moment)
    (raws : List String) (s : Sorted) (db' : Db) : Type 0 where
  pub items :
      map told (all_items job_id db') ≡ map valid_phone s.normalized ++ map invalid_phone s.invalid
  pub normal : AreNormal normalize s.normalized
  pub kept : AreKept normalize raws s.normalized
  pub invalid : s.invalid ≡ select_where (λ raw. is_null (normalize raw)) raws
  pub distinct : IsDistinct s.normalized
  pub counted_once : length_of s.normalized + length_of s.invalid ≤ length_of raws
  pub total : count job_id db' ≡ length_of s.normalized + length_of s.invalid
  pub counters : reconcile_stats now job_id db' ≡ db'
