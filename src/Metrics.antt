-- ===== src/Metrics.antt =====
-- internal/metrics/metrics.go: the gauges and counters that the Raft node sets. The collectors are
-- Prometheus's; here each holds the last value set, or its count.
use raftra.Common.{ℕ, ◌+◌, Option, none, some}

pub record Metrics : Type 0 where
  pub current_term : ℕ
  pub node_role : ℕ
  pub leader_elections_total : ℕ
  pub commit_index : ℕ
  pub last_applied : ℕ
  pub log_entries_total : ℕ
  pub append_entries_total : ℕ
  pub request_vote_total : ℕ

-- A method of a nil `*Metrics` does nothing.
abbrev on : (Metrics → Metrics) → Option Metrics → Option Metrics
on f none = none
on f (some m) = some (f m)

abbrev pub set_current_term : ℕ → Option Metrics → Option Metrics
set_current_term term = on (λ m. record m { current_term = term })

abbrev pub set_node_role : ℕ → Option Metrics → Option Metrics
set_node_role role = on (λ m. record m { node_role = role })

abbrev pub inc_leader_elections : Option Metrics → Option Metrics
inc_leader_elections = on (λ m. record m { leader_elections_total = m.leader_elections_total + 1 })

abbrev pub set_commit_index : ℕ → Option Metrics → Option Metrics
set_commit_index idx = on (λ m. record m { commit_index = idx })

abbrev pub set_last_applied : ℕ → Option Metrics → Option Metrics
set_last_applied idx = on (λ m. record m { last_applied = idx })

abbrev pub set_log_entries_total : ℕ → Option Metrics → Option Metrics
set_log_entries_total count = on (λ m. record m { log_entries_total = count })

abbrev pub inc_append_entries_total : Option Metrics → Option Metrics
inc_append_entries_total = on (λ m. record m { append_entries_total = m.append_entries_total + 1 })

abbrev pub inc_request_vote_total : Option Metrics → Option Metrics
inc_request_vote_total = on (λ m. record m { request_vote_total = m.request_vote_total + 1 })
