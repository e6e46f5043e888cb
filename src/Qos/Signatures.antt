-- ===== src/Qos/Signatures.antt =====
-- The table of applications of server/app_qos/signatures.py.
use pathwiseai.Prelude.{[], ◌∷◌}
use pathwiseai.Prelude.Dict.{Dict}
use pathwiseai.Qos.Tiers.{
  AppSignature, audio_tiers, browser_tiers, cloud_storage_tiers, gaming_tiers, streaming_tiers,
  video_conf_tiers,
}

abbrev pub app_signatures : Dict AppSignature
app_signatures =
    (
      "zoom",
      record {
        app_id = "zoom";
        display_name = "Zoom";
        category = "video_conferencing";
        icon = "V";
        ports = 8801 ∷ 8802 ∷ 8443 ∷ [];
        udp_ports = 8801 ∷ 8802 ∷ 3478 ∷ 3479 ∷ [];
        cidrs =
            "3.7.35.0/24" ∷ "3.21.137.0/24" ∷ "3.22.11.0/24" ∷ "3.23.93.0/24" ∷ "3.25.41.0/24"
            ∷ "3.25.42.0/24" ∷ "3.25.49.0/24" ∷ "8.5.128.0/18" ∷ "13.52.6.0/24" ∷ [];
        process_names = "zoom" ∷ "zoom.exe" ∷ "Zoom.exe" ∷ "CptHost.exe" ∷ [];
        domains = "*.zoom.us" ∷ "*.zoomgov.com" ∷ [];
        quality_tiers = video_conf_tiers;
        default_priority = "HIGH";
        base_bandwidth_mbps = 500;
      },
    )
    ∷ (
      "teams",
      record {
        app_id = "teams";
        display_name = "Microsoft Teams";
        category = "video_conferencing";
        icon = "T";
        ports = 443 ∷ 3478 ∷ 3479 ∷ 3480 ∷ 3481 ∷ [];
        udp_ports =
            3478 ∷ 3479 ∷ 3480 ∷ 3481 ∷ 50000 ∷ 50001 ∷ 50002 ∷ 50003 ∷ 50004 ∷ 50005 ∷ 50006
            ∷ 50007 ∷ 50008 ∷ 50009 ∷ 50010 ∷ 50011 ∷ 50012 ∷ 50013 ∷ 50014 ∷ 50015 ∷ 50016 ∷ 50017
            ∷ 50018 ∷ 50019 ∷ 50020 ∷ 50021 ∷ 50022 ∷ 50023 ∷ 50024 ∷ 50025 ∷ 50026 ∷ 50027 ∷ 50028
            ∷ 50029 ∷ 50030 ∷ 50031 ∷ 50032 ∷ 50033 ∷ 50034 ∷ 50035 ∷ 50036 ∷ 50037 ∷ 50038 ∷ 50039
            ∷ 50040 ∷ 50041 ∷ 50042 ∷ 50043 ∷ 50044 ∷ 50045 ∷ 50046 ∷ 50047 ∷ 50048 ∷ 50049 ∷ 50050
            ∷ 50051 ∷ 50052 ∷ 50053 ∷ 50054 ∷ 50055 ∷ 50056 ∷ 50057 ∷ 50058 ∷ 50059 ∷ [];
        cidrs = "13.107.64.0/18" ∷ "52.112.0.0/14" ∷ "52.120.0.0/14" ∷ [];
        process_names = "Teams" ∷ "Teams.exe" ∷ "ms-teams.exe" ∷ [];
        domains = "*.teams.microsoft.com" ∷ "*.skype.com" ∷ [];
        quality_tiers = video_conf_tiers;
        default_priority = "HIGH";
        base_bandwidth_mbps = 500;
      },
    )
    ∷ (
      "google_meet",
      record {
        app_id = "google_meet";
        display_name = "Google Meet";
        category = "video_conferencing";
        icon = "W";
        ports = 443 ∷ 19302 ∷ 19303 ∷ 19304 ∷ 19305 ∷ 19306 ∷ 19307 ∷ 19308 ∷ 19309 ∷ [];
        udp_ports = 19302 ∷ 19303 ∷ 19304 ∷ 19305 ∷ 19306 ∷ 19307 ∷ 19308 ∷ 19309 ∷ 3478 ∷ [];
        cidrs = "74.125.250.0/24" ∷ "142.250.0.0/15" ∷ [];
        process_names = "chrome" ∷ "chrome.exe" ∷ "firefox" ∷ "firefox.exe" ∷ [];
        domains = "meet.google.com" ∷ "*.meet.google.com" ∷ [];
        quality_tiers = video_conf_tiers;
        default_priority = "HIGH";
        base_bandwidth_mbps = 500;
      },
    )
    ∷ (
      "youtube",
      record {
        app_id = "youtube";
        display_name = "YouTube";
        category = "streaming";
        icon = "P";
        ports = 443 ∷ 80 ∷ [];
        udp_ports = 443 ∷ [];
        cidrs =
            "208.65.152.0/22" ∷ "208.117.224.0/19" ∷ "209.85.128.0/17" ∷ "216.58.192.0/19"
            ∷ "216.239.32.0/19" ∷ "172.217.0.0/16" ∷ [];
        process_names =
            "chrome" ∷ "chrome.exe" ∷ "firefox" ∷ "firefox.exe" ∷ "msedge" ∷ "msedge.exe" ∷ [];
        domains = "*.youtube.com" ∷ "*.googlevideo.com" ∷ "*.ytimg.com" ∷ [];
        quality_tiers = streaming_tiers;
        default_priority = "NORMAL";
        base_bandwidth_mbps = 800;
      },
    )
    ∷ (
      "netflix",
      record {
        app_id = "netflix";
        display_name = "Netflix";
        category = "streaming";
        icon = "F";
        ports = 443 ∷ 80 ∷ [];
        udp_ports = [];
        cidrs =
            "23.246.0.0/18" ∷ "37.77.184.0/21" ∷ "45.57.0.0/17" ∷ "64.120.128.0/17"
            ∷ "66.197.128.0/17" ∷ "69.53.224.0/19" ∷ "108.175.32.0/20" ∷ "185.2.220.0/22"
            ∷ "185.9.188.0/22" ∷ "192.173.64.0/18" ∷ "198.38.96.0/19" ∷ "198.45.48.0/20" ∷ [];
        process_names = "netflix" ∷ "Netflix.exe" ∷ [];
        domains = "*.netflix.com" ∷ "*.nflxvideo.net" ∷ [];
        quality_tiers = streaming_tiers;
        default_priority = "NORMAL";
        base_bandwidth_mbps = 800;
      },
    )
    ∷ (
      "twitch",
      record {
        app_id = "twitch";
        display_name = "Twitch";
        category = "streaming";
        icon = "Tw";
        ports = 443 ∷ 80 ∷ 1935 ∷ [];
        udp_ports = [];
        cidrs = "52.223.192.0/18" ∷ "99.181.64.0/18" ∷ "185.42.204.0/22" ∷ [];
        process_names = "chrome" ∷ "chrome.exe" ∷ "firefox" ∷ "firefox.exe" ∷ [];
        domains = "*.twitch.tv" ∷ "*.jtvnw.net" ∷ "*.ttvnw.net" ∷ [];
        quality_tiers = streaming_tiers;
        default_priority = "NORMAL";
        base_bandwidth_mbps = 600;
      },
    )
    ∷ (
      "disney_plus",
      record {
        app_id = "disney_plus";
        display_name = "Disney+";
        category = "streaming";
        icon = "D";
        ports = 443 ∷ 80 ∷ [];
        udp_ports = [];
        cidrs = "34.195.0.0/16" ∷ "54.0.0.0/8" ∷ [];
        process_names = "DisneyPlus" ∷ "DisneyPlus.exe" ∷ [];
        domains = "*.disneyplus.com" ∷ "*.disney-plus.net" ∷ "*.bamgrid.com" ∷ "*.dssott.com" ∷ [];
        quality_tiers = streaming_tiers;
        default_priority = "NORMAL";
        base_bandwidth_mbps = 800;
      },
    )
    ∷ (
      "discord",
      record {
        app_id = "discord";
        display_name = "Discord";
        category = "communication";
        icon = "G";
        ports = 443 ∷ 80 ∷ [];
        udp_ports =
            50000 ∷ 50001 ∷ 50002 ∷ 50003 ∷ 50004 ∷ 50005 ∷ 50006 ∷ 50007 ∷ 50008 ∷ 50009 ∷ 50010
            ∷ 50011 ∷ 50012 ∷ 50013 ∷ 50014 ∷ 50015 ∷ 50016 ∷ 50017 ∷ 50018 ∷ 50019 ∷ 50020 ∷ [];
        cidrs = "162.159.128.0/17" ∷ "66.22.196.0/22" ∷ [];
        process_names = "Discord" ∷ "Discord.exe" ∷ "discord" ∷ [];
        domains = "*.discord.com" ∷ "*.discord.gg" ∷ "*.discordapp.com" ∷ [];
        quality_tiers = video_conf_tiers;
        default_priority = "NORMAL";
        base_bandwidth_mbps = 300;
      },
    )
    ∷ (
      "spotify",
      record {
        app_id = "spotify";
        display_name = "Spotify";
        category = "audio_streaming";
        icon = "S";
        ports = 443 ∷ 80 ∷ 4070 ∷ [];
        udp_ports = 57621 ∷ [];
        cidrs = "35.186.224.0/20" ∷ "104.154.0.0/15" ∷ [];
        process_names = "Spotify" ∷ "Spotify.exe" ∷ "spotify" ∷ [];
        domains = "*.spotify.com" ∷ "*.spotifycdn.com" ∷ "*.scdn.co" ∷ [];
        quality_tiers = audio_tiers;
        default_priority = "NORMAL";
        base_bandwidth_mbps = 50;
      },
    )
    ∷ (
      "google_chrome",
      record {
        app_id = "google_chrome";
        display_name = "Google Chrome (General)";
        category = "browser";
        icon = "W";
        ports = 443 ∷ 80 ∷ 8080 ∷ [];
        udp_ports = 443 ∷ [];
        cidrs = [];
        process_names = "chrome" ∷ "chrome.exe" ∷ "Google Chrome" ∷ [];
        domains = "*" ∷ [];
        quality_tiers = browser_tiers;
        default_priority = "NORMAL";
        base_bandwidth_mbps = 1000;
      },
    )
    ∷ (
      "onedrive",
      record {
        app_id = "onedrive";
        display_name = "OneDrive";
        category = "cloud_storage";
        icon = "C";
        ports = 443 ∷ 80 ∷ [];
        udp_ports = [];
        cidrs = "13.107.136.0/22" ∷ "13.107.140.0/22" ∷ "52.109.0.0/16" ∷ [];
        process_names = "OneDrive" ∷ "OneDrive.exe" ∷ "onedrive" ∷ [];
        domains = "*.onedrive.live.com" ∷ "*.sharepoint.com" ∷ "*.storage.live.com" ∷ [];
        quality_tiers = cloud_storage_tiers;
        default_priority = "NORMAL";
        base_bandwidth_mbps = 500;
      },
    )
    ∷ (
      "steam",
      record {
        app_id = "steam";
        display_name = "Steam";
        category = "gaming";
        icon = "G";
        ports = 443 ∷ 80 ∷ 27015 ∷ 27016 ∷ 27017 ∷ 27018 ∷ 27019 ∷ 27020 ∷ 27036 ∷ 27037 ∷ [];
        udp_ports =
            27015 ∷ 27016 ∷ 27017 ∷ 27018 ∷ 27019 ∷ 27020 ∷ 4380 ∷ 27000 ∷ 27001 ∷ 27002 ∷ 27003
            ∷ 27004 ∷ 27005 ∷ 27006 ∷ 27007 ∷ 27008 ∷ 27009 ∷ 27010 ∷ 27011 ∷ 27012 ∷ 27013 ∷ 27014
            ∷ 27015 ∷ [];
        cidrs =
            "103.10.124.0/23" ∷ "146.66.152.0/22" ∷ "155.133.224.0/20" ∷ "162.254.192.0/21"
            ∷ "185.25.182.0/23" ∷ "190.217.32.0/22" ∷ "205.196.6.0/24" ∷ [];
        process_names =
            "steam" ∷ "steam.exe" ∷ "Steam.exe" ∷ "steamwebhelper" ∷ "steamwebhelper.exe" ∷ [];
        domains =
            "*.steampowered.com" ∷ "*.steamcommunity.com" ∷ "*.steamstatic.com"
            ∷ "*.steamcontent.com" ∷ [];
        quality_tiers = gaming_tiers;
        default_priority = "LOW";
        base_bandwidth_mbps = 1500;
      },
    )
    ∷ []
