-- ===== src/Sessions/Alerts.antt =====
-- `AlertManager` of src/metrics/alerting.py. The id of an alert is made of the time and a hash of
-- the title: it is an argument. The providers are only told.
use disposable_compute_platf.Prelude.{ℕ, String, Option, some}
use disposable_compute_platf.Prelude.Dict.{Dict, put, del}

pub record Alert : Type 0 where
  pub id : String
  pub severity : String
  pub title : String
  pub description : String
  pub timestamp : ℕ

pub record AlertManager : Type 0 where
  pub active_alerts : Dict Alert
  pub pagerduty_key : Option String
  pub opsgenie_key : Option String

unfoldable pub configure_pagerduty : AlertManager → String → AlertManager
configure_pagerduty a api_key = record a { pagerduty_key = some api_key }

unfoldable pub configure_opsgenie : AlertManager → String → AlertManager
configure_opsgenie a api_key = record a { opsgenie_key = some api_key }

unfoldable pub trigger_alert : String → ℕ → AlertManager → String → String → String → AlertManager
trigger_alert alert_id now a severity title description = record a {
  active_alerts =
      put alert_id
        (record {
          id = alert_id;
          severity = severity;
          title = title;
          description = description;
          timestamp = now;
        })
        a.active_alerts;
}

unfoldable pub resolve_alert : AlertManager → String → AlertManager
resolve_alert a alert_id = record a { active_alerts = del alert_id a.active_alerts }
