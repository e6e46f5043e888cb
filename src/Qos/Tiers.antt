-- ===== src/Qos/Tiers.antt =====
-- The tiers of quality, the priority classes and the signatures of server/app_qos/signatures.py.
-- A bandwidth is in hundredths of a megabit per second, a share in thousandths.
use pathwiseai.Prelude.{ℕ, String, List, [], ◌∷◌}
use pathwiseai.Prelude.Dict.{Dict}

pub record QualityTier : Type 0 where
  pub label : String
  pub min_mbps : ℕ
  pub max_mbps : ℕ
  pub score : ℕ

pub record AppSignature : Type 0 where
  pub app_id : String
  pub display_name : String
  pub category : String
  pub icon : String
  pub ports : List ℕ
  pub udp_ports : List ℕ
  pub cidrs : List String
  pub process_names : List String
  pub domains : List String
  pub quality_tiers : List QualityTier
  pub default_priority : String
  pub base_bandwidth_mbps : ℕ

abbrev tier : String → ℕ → ℕ → ℕ → QualityTier
tier label low high score = record { label = label; min_mbps = low; max_mbps = high; score = score }

abbrev pub video_conf_tiers : List QualityTier
video_conf_tiers =
    tier "Audio Only" 10 50 20
    ∷ tier "Low (360p)" 50 150 40
    ∷ tier "Medium (720p)" 150 300 60
    ∷ tier "HD (1080p)" 300 500 80
    ∷ tier "Excellent" 500 5000 100
    ∷ []

abbrev pub streaming_tiers : List QualityTier
streaming_tiers =
    tier "144p" 10 30 5
    ∷ tier "240p" 30 70 15
    ∷ tier "360p" 70 150 30
    ∷ tier "480p" 150 300 45
    ∷ tier "720p" 300 500 60
    ∷ tier "1080p" 500 1000 80
    ∷ tier "1440p" 1000 2000 90
    ∷ tier "4K" 2000 5000 100
    ∷ []

abbrev pub audio_tiers : List QualityTier
audio_tiers =
    tier "Low (96kbps)" 5 15 30
    ∷ tier "Normal (160kbps)" 15 35 60
    ∷ tier "High (320kbps)" 35 100 85
    ∷ tier "Excellent" 100 500 100
    ∷ []

abbrev pub browser_tiers : List QualityTier
browser_tiers =
    tier "Slow" 50 200 30
    ∷ tier "Normal" 200 500 60
    ∷ tier "Fast" 500 2000 85
    ∷ tier "Blazing" 2000 10000 100
    ∷ []

abbrev pub cloud_storage_tiers : List QualityTier
cloud_storage_tiers =
    tier "Trickle" 10 100 20
    ∷ tier "Normal" 100 500 50
    ∷ tier "Fast" 500 2000 80
    ∷ tier "Unlimited" 2000 10000 100
    ∷ []

abbrev pub gaming_tiers : List QualityTier
gaming_tiers =
    tier "Unplayable" 10 100 10
    ∷ tier "Low" 100 300 30
    ∷ tier "Medium" 300 1000 60
    ∷ tier "High" 1000 2500 80
    ∷ tier "Ultra" 2500 7500 100
    ∷ []

pub record PriorityClass : Type 0 where
  pub label : String
  pub bandwidth_pct : ℕ
  pub description : String

abbrev pub priority_classes : Dict PriorityClass
priority_classes =
    (
      "CRITICAL",
      record {
        label = "Critical / Real-time";
        bandwidth_pct = 900;
        description = "Near-full bandwidth, minimal latency. For surgery, trading, etc.";
      },
    )
    ∷ (
      "HIGH",
      record {
        label = "High Priority";
        bandwidth_pct = 600;
        description = "Majority bandwidth share. Video calls, live collaboration.";
      },
    )
    ∷ (
      "NORMAL",
      record {
        label = "Normal";
        bandwidth_pct = 300;
        description = "Fair share. General browsing, email.";
      },
    )
    ∷ (
      "LOW",
      record {
        label = "Low Priority";
        bandwidth_pct = 3;
        description = "Minimal bandwidth. Background downloads, updates.";
      },
    )
    ∷ (
      "BLOCKED",
      record {
        label = "Blocked";
        bandwidth_pct = 0;
        description = "Zero bandwidth allocated. Traffic dropped.";
      },
    )
    ∷ []
