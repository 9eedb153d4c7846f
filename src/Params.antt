-- ===== src/Params.antt =====
-- params.c and params.h: the tunable constants. Each is an `int`; the models take values that are
-- not negative.
use eyeq.Common.{ℕ, ◌*◌}

-- The variables of params.c that the packet paths and the controllers read.
pub record Params : Type 0 where
  pub max_tx_rate : ℕ
  pub vq_drain_rate_mbps : ℕ
  pub max_burst_time_us : ℕ
  pub min_burst_bytes : ℕ
  pub rfair_initial : ℕ
  pub min_rfair : ℕ
  pub rfair_increment : ℕ
  pub rfair_decrease_interval_us : ℕ
  pub rfair_increase_interval_us : ℕ
  pub rfair_feedback_timeout_us : ℕ
  pub falpha : ℕ
  pub iso_global_enabled : ℕ
  pub iso_auto_generate_feedback : ℕ
  pub feedback_interval_us : ℕ
  pub feedback_interval_bytes : ℕ
  pub feedback_packet_ipproto : ℕ
  pub rl_update_interval_us : ℕ
  pub burst_factor : ℕ
  pub vq_update_interval_us : ℕ
  pub txc_update_interval_us : ℕ
  pub max_queue_len_bytes : ℕ
  pub tx_mark_thresh : ℕ
  pub gso_thresh_rate : ℕ
  pub gso_min_split_bytes : ℕ
  pub ecn_mark_thresh_bytes : ℕ
  pub vq_hrcp_us : ℕ

-- The values that the variables are initialised with.
abbrev pub defaults : Params
defaults = record {
  max_tx_rate = 9800;
  vq_drain_rate_mbps = 9000;
  max_burst_time_us = 150;
  min_burst_bytes = 65536;
  rfair_initial = 5000;
  min_rfair = 10;
  rfair_increment = 10;
  rfair_decrease_interval_us = 120;
  rfair_increase_interval_us = 120;
  rfair_feedback_timeout_us = 1000 * 1000;
  falpha = 8;
  iso_global_enabled = 1;
  iso_auto_generate_feedback = 1;
  feedback_interval_us = 100;
  feedback_interval_bytes = 10000;
  feedback_packet_ipproto = 143;
  rl_update_interval_us = 20;
  burst_factor = 8;
  vq_update_interval_us = 200;
  txc_update_interval_us = 200;
  max_queue_len_bytes = 128 * 1024;
  tx_mark_thresh = 100 * 1024;
  gso_thresh_rate = 1000;
  gso_min_split_bytes = 10000;
  ecn_mark_thresh_bytes = 30 * 1500;
  vq_hrcp_us = 1000;
}

-- ISO_FEEDBACK_PACKET_SIZE, ISO_FEEDBACK_HEADER_SIZE and ISO_FEEDBACK_PACKET_TTL are `const`.
abbrev pub feedback_packet_size : ℕ
feedback_packet_size = 64

abbrev pub feedback_header_size : ℕ
feedback_header_size = 20

abbrev pub feedback_packet_ttl : ℕ
feedback_packet_ttl = 64

-- The macros of params.h.
abbrev pub idle_timeout_us : ℕ
idle_timeout_us = 100 * 1000 * 10 * 1000

abbrev pub idle_rate : ℕ
idle_rate = 2500

abbrev pub max_buckets : ℕ
max_buckets = 256
