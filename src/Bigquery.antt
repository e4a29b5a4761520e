-- ===== src/Bigquery.antt =====
-- src/bigquery.rs: the log of published messages in BigQuery.
use mcloudtt.Prelude.{String, Option-cases, inl, inr, ◌≢◌, arith}
use mcloudtt.Error.{MCloudError, Action, ok, err, unwrap, ◌>>=◌}
use mcloudtt.Config.{BigQuery}
use mcloudtt.Env.{Env}

pub record LogEntry : Type 0 where
  pub topic : String
  pub message : String
  pub datetime : String

module _ (E : Env) where
  -- A failed insertion is only logged; a key file that cannot be used ends in a panic.
  pub log_in_bq : String → String → Action E.Bq (Unit {0})
  log_in_bq topic message bq =
      (do
        config ← unwrap E.settings.bigquery
        client ← unwrap (E.from_service_account_key_file config.credentials_path bq)
        insert config client)
        bq
    where
      log_entry : LogEntry
      log_entry = record { topic = topic; message = message; datetime = E.now bq }

      insert : BigQuery → E.BqClient → Action E.Bq (Unit {0})
      insert config client s = (
        ok tt,
        (E.insert_all client config.project_id config.dataset_id config.table_id
            (log_entry.topic, log_entry.message, log_entry.datetime) s).1,
      )

  -- It ends well or panics; it returns no error.
  pub log_in_bq-not_err :
      (topic message : String) (bq : E.Bq) (e : MCloudError)
      → (log_in_bq topic message bq).0 ≢ err e
  unfolding log_in_bq
  log_in_bq-not_err topic message bq e h = elim (Option-cases E.settings.bigquery) [
    | inl none_set ↦ ground arith
    | inr (c, set) ↦ elim (Option-cases (E.from_service_account_key_file c.credentials_path bq)) [
      | inl failed ↦ ground arith
      | inr (k, found) ↦ ground arith
    ]
  ]
