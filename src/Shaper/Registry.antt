-- ===== src/Shaper/Registry.antt =====
-- The applications that server/traffic_shaper.py knows, and their names in plain language.
use pathwiseai.Prelude.{ℕ, String, List, [], ◌∷◌}
use pathwiseai.Prelude.Dict.{Dict}

pub data PriorityClass : Type 0 where
  critical high normal low blocked : PriorityClass

pub record AppProfile : Type 0 where
  pub name : String
  pub display_name : String
  pub category : String
  pub process_names : List String
  pub domains : List String
  pub ip_prefixes : List String
  pub default_priority : PriorityClass
  pub default_bandwidth_kbps : ℕ

abbrev pub app_registry : Dict AppProfile
app_registry =
    (
      "zoom",
      record {
        name = "zoom";
        display_name = "Zoom";
        category = "video_call";
        process_names = "Zoom.exe" ∷ "ZoomWebHost.exe" ∷ [];
        domains = "*.zoom.us" ∷ "*.zoomgov.com" ∷ [];
        ip_prefixes =
            "3.7.35.0/25" ∷ "3.21.137.128/25" ∷ "3.22.11.0/24" ∷ "3.23.93.0/24" ∷ "3.25.41.128/25"
            ∷ "3.25.42.0/25" ∷ "3.25.49.0/24" ∷ "8.5.128.0/23" ∷ "13.52.6.128/25"
            ∷ "52.61.100.128/25" ∷ "64.125.62.0/24" ∷ "64.211.144.0/24" ∷ [];
        default_priority = critical;
        default_bandwidth_kbps = 0;
      },
    )
    ∷ (
      "youtube",
      record {
        name = "youtube";
        display_name = "YouTube";
        category = "streaming";
        process_names = "chrome.exe" ∷ "msedge.exe" ∷ "firefox.exe" ∷ [];
        domains = "*.googlevideo.com" ∷ "*.youtube.com" ∷ "*.ytimg.com" ∷ [];
        ip_prefixes =
            "216.58.0.0/16" ∷ "142.250.0.0/15" ∷ "172.217.0.0/16" ∷ "208.65.152.0/22"
            ∷ "208.117.224.0/19" ∷ [];
        default_priority = low;
        default_bandwidth_kbps = 0;
      },
    )
    ∷ (
      "teams",
      record {
        name = "teams";
        display_name = "Microsoft Teams";
        category = "video_call";
        process_names = "ms-teams.exe" ∷ "Teams.exe" ∷ "msteams.exe" ∷ [];
        domains = "*.teams.microsoft.com" ∷ "*.skype.com" ∷ "*.lync.com" ∷ [];
        ip_prefixes = "13.107.64.0/18" ∷ "52.112.0.0/14" ∷ "52.120.0.0/14" ∷ [];
        default_priority = critical;
        default_bandwidth_kbps = 0;
      },
    )
    ∷ (
      "netflix",
      record {
        name = "netflix";
        display_name = "Netflix";
        category = "streaming";
        process_names = "chrome.exe" ∷ "msedge.exe" ∷ "Netflix.exe" ∷ [];
        domains = "*.netflix.com" ∷ "*.nflxvideo.net" ∷ "*.nflximg.net" ∷ [];
        ip_prefixes =
            "23.246.0.0/18" ∷ "37.77.184.0/21" ∷ "38.72.126.0/24" ∷ "45.57.0.0/17"
            ∷ "64.120.128.0/17" ∷ "66.197.128.0/17" ∷ "69.53.224.0/19" ∷ "108.175.32.0/20" ∷ [];
        default_priority = low;
        default_bandwidth_kbps = 0;
      },
    )
    ∷ (
      "spotify",
      record {
        name = "spotify";
        display_name = "Spotify";
        category = "streaming";
        process_names = "Spotify.exe" ∷ [];
        domains = "*.spotify.com" ∷ "*.spotifycdn.com" ∷ "*.scdn.co" ∷ [];
        ip_prefixes = "35.186.224.0/20" ∷ "104.154.0.0/15" ∷ [];
        default_priority = low;
        default_bandwidth_kbps = 0;
      },
    )
    ∷ (
      "discord",
      record {
        name = "discord";
        display_name = "Discord";
        category = "social";
        process_names = "Discord.exe" ∷ "Update.exe" ∷ [];
        domains = "*.discord.com" ∷ "*.discord.gg" ∷ "*.discordapp.com" ∷ "*.discord.media" ∷ [];
        ip_prefixes = "162.159.128.0/17" ∷ "66.22.196.0/22" ∷ [];
        default_priority = normal;
        default_bandwidth_kbps = 0;
      },
    )
    ∷ (
      "slack",
      record {
        name = "slack";
        display_name = "Slack";
        category = "business";
        process_names = "slack.exe" ∷ [];
        domains = "*.slack.com" ∷ "*.slack-edge.com" ∷ "*.slack-msgs.com" ∷ [];
        ip_prefixes = "54.192.0.0/16" ∷ [];
        default_priority = high;
        default_bandwidth_kbps = 0;
      },
    )
    ∷ (
      "gaming",
      record {
        name = "gaming";
        display_name = "Online Gaming";
        category = "gaming";
        process_names =
            "steam.exe" ∷ "EpicGamesLauncher.exe" ∷ "Battle.net.exe" ∷ "valorant.exe"
            ∷ "FortniteClient-Win64-Shipping.exe" ∷ [];
        domains = "*.steampowered.com" ∷ "*.epicgames.com" ∷ "*.battle.net" ∷ [];
        ip_prefixes = "208.64.200.0/24" ∷ "205.185.192.0/18" ∷ [];
        default_priority = normal;
        default_bandwidth_kbps = 0;
      },
    )
    ∷ (
      "twitch",
      record {
        name = "twitch";
        display_name = "Twitch";
        category = "streaming";
        process_names = "chrome.exe" ∷ "msedge.exe" ∷ [];
        domains = "*.twitch.tv" ∷ "*.ttvnw.net" ∷ "*.jtvnw.net" ∷ [];
        ip_prefixes = "52.223.192.0/18" ∷ "99.181.64.0/18" ∷ [];
        default_priority = low;
        default_bandwidth_kbps = 0;
      },
    )
    ∷ (
      "google_meet",
      record {
        name = "google_meet";
        display_name = "Google Meet";
        category = "video_call";
        process_names = "chrome.exe" ∷ "msedge.exe" ∷ [];
        domains = "*.meet.google.com" ∷ "meet.google.com" ∷ [];
        ip_prefixes = "74.125.250.0/24" ∷ "142.250.82.0/24" ∷ [];
        default_priority = critical;
        default_bandwidth_kbps = 0;
      },
    )
    ∷ (
      "skype",
      record {
        name = "skype";
        display_name = "Skype";
        category = "video_call";
        process_names = "Skype.exe" ∷ "SkypeApp.exe" ∷ [];
        domains = "*.skype.com" ∷ "*.lync.com" ∷ [];
        ip_prefixes = "13.107.64.0/18" ∷ "52.112.0.0/14" ∷ [];
        default_priority = critical;
        default_bandwidth_kbps = 0;
      },
    )
    ∷ (
      "whatsapp",
      record {
        name = "whatsapp";
        display_name = "WhatsApp";
        category = "social";
        process_names = "WhatsApp.exe" ∷ [];
        domains = "*.whatsapp.net" ∷ "*.whatsapp.com" ∷ [];
        ip_prefixes = "31.13.64.0/18" ∷ "157.240.0.0/16" ∷ [];
        default_priority = high;
        default_bandwidth_kbps = 0;
      },
    )
    ∷ (
      "telegram",
      record {
        name = "telegram";
        display_name = "Telegram";
        category = "social";
        process_names = "Telegram.exe" ∷ [];
        domains = "*.telegram.org" ∷ "*.t.me" ∷ [];
        ip_prefixes =
            "91.108.4.0/22" ∷ "91.108.8.0/22" ∷ "91.108.12.0/22" ∷ "91.108.16.0/22"
            ∷ "91.108.20.0/22" ∷ "149.154.160.0/20" ∷ [];
        default_priority = normal;
        default_bandwidth_kbps = 0;
      },
    )
    ∷ (
      "web_browsing",
      record {
        name = "web_browsing";
        display_name = "Web Browsing";
        category = "bulk";
        process_names = "chrome.exe" ∷ "msedge.exe" ∷ "firefox.exe" ∷ [];
        domains = [];
        ip_prefixes = [];
        default_priority = normal;
        default_bandwidth_kbps = 0;
      },
    )
    ∷ (
      "file_transfer",
      record {
        name = "file_transfer";
        display_name = "File Transfers";
        category = "bulk";
        process_names = "OneDrive.exe" ∷ "Dropbox.exe" ∷ "googledrivesync.exe" ∷ [];
        domains = "*.dropbox.com" ∷ "*.onedrive.com" ∷ "*.googleapis.com" ∷ [];
        ip_prefixes = [];
        default_priority = low;
        default_bandwidth_kbps = 0;
      },
    )
    ∷ []

abbrev pub app_aliases : Dict String
app_aliases =
    ("zoom", "zoom")
    ∷ ("zoom call", "zoom")
    ∷ ("zoom meeting", "zoom")
    ∷ ("youtube", "youtube")
    ∷ ("yt", "youtube")
    ∷ ("youtube video", "youtube")
    ∷ ("teams", "teams")
    ∷ ("microsoft teams", "teams")
    ∷ ("ms teams", "teams")
    ∷ ("netflix", "netflix")
    ∷ ("spotify", "spotify")
    ∷ ("music", "spotify")
    ∷ ("discord", "discord")
    ∷ ("slack", "slack")
    ∷ ("gaming", "gaming")
    ∷ ("games", "gaming")
    ∷ ("steam", "gaming")
    ∷ ("fortnite", "gaming")
    ∷ ("valorant", "gaming")
    ∷ ("twitch", "twitch")
    ∷ ("twitch stream", "twitch")
    ∷ ("google meet", "google_meet")
    ∷ ("gmeet", "google_meet")
    ∷ ("skype", "skype")
    ∷ ("whatsapp", "whatsapp")
    ∷ ("telegram", "telegram")
    ∷ ("browsing", "web_browsing")
    ∷ ("web", "web_browsing")
    ∷ ("chrome", "web_browsing")
    ∷ ("file transfer", "file_transfer")
    ∷ ("onedrive", "file_transfer")
    ∷ ("dropbox", "file_transfer")
    ∷ []
