-- ===== src/Text/Compare.antt =====
-- Comparison without case in ngix_module/AIS/allais.c, and the places of the names of parameters:
-- `ais_strcasecmp`, `ais_strncasecmp`, `ais_get_mask`, `ais_getoffline_mask`, `ais_getreport_mask`
-- and `ais_getcallback_mask`.
pub mod Masks
use doorhinges.Base.{
  ℕ, zero, suc, ◌+◌, Bool, true, false, ◌&&◌, List, [], ◌∷◌, leb, ◌==◌, if◌then◌else◌, map,
}

-- `tolower` in the locale of C.
abbrev pub tolower : ℕ → ℕ
tolower c = if leb 65 c && leb c 90 then c + 32 else c

-- `ais_strcasecmp(a, b) == 0`
unfoldable pub ais_strcasecmp_eq : List ℕ → List ℕ → Bool
ais_strcasecmp_eq [] [] = true
ais_strcasecmp_eq [] (b ∷ bs) = false
ais_strcasecmp_eq (a ∷ as') [] = false
ais_strcasecmp_eq (a ∷ as') (b ∷ bs) = tolower a == tolower b && ais_strcasecmp_eq as' bs

-- `ais_strncasecmp(a, b, len) == 0`
unfoldable pub ais_strncasecmp_eq : List ℕ → List ℕ → ℕ → Bool
ais_strncasecmp_eq as' bs zero = true
ais_strncasecmp_eq [] [] (suc len) = true
ais_strncasecmp_eq [] (b ∷ bs) (suc len) = false
ais_strncasecmp_eq (a ∷ as') [] (suc len) = false
ais_strncasecmp_eq (a ∷ as') (b ∷ bs) (suc len) =
    tolower a == tolower b && ais_strncasecmp_eq as' bs len

-- The loop of the four: the first place of the name in a table, or the length of the table.
pub get_mask : List (List ℕ) → List ℕ → ℕ
get_mask [] pp = 0
get_mask (p ∷ ps) pp = let rest = get_mask ps pp in if ais_strcasecmp_eq p pp then 0 else suc rest

-- Ah, AppName, Aw, Category, Client, Density, DeviceNum, Format, ...
abbrev pub params : List (List ℕ)
params =
    (65 ∷ 104 ∷ [])
    ∷ (65 ∷ 112 ∷ 112 ∷ 78 ∷ 97 ∷ 109 ∷ 101 ∷ [])
    ∷ (65 ∷ 119 ∷ [])
    ∷ (67 ∷ 97 ∷ 116 ∷ 101 ∷ 103 ∷ 111 ∷ 114 ∷ 121 ∷ [])
    ∷ (67 ∷ 108 ∷ 105 ∷ 101 ∷ 110 ∷ 116 ∷ [])
    ∷ (68 ∷ 101 ∷ 110 ∷ 115 ∷ 105 ∷ 116 ∷ 121 ∷ [])
    ∷ (68 ∷ 101 ∷ 118 ∷ 105 ∷ 99 ∷ 101 ∷ 78 ∷ 117 ∷ 109 ∷ [])
    ∷ (70 ∷ 111 ∷ 114 ∷ 109 ∷ 97 ∷ 116 ∷ [])
    ∷ (73 ∷ 112 ∷ [])
    ∷ (76 ∷ 97 ∷ 116 ∷ [])
    ∷ (76 ∷ 111 ∷ 110 ∷ 103 ∷ [])
    ∷ (78 ∷ 101 ∷ 116 ∷ [])
    ∷ (79 ∷ 112 ∷ 101 ∷ 114 ∷ 97 ∷ 116 ∷ 111 ∷ 114 ∷ [])
    ∷ (79 ∷ 115 ∷ 95 ∷ 118 ∷ 101 ∷ 114 ∷ 115 ∷ 105 ∷ 111 ∷ 110 ∷ [])
    ∷ (80 ∷ 104 ∷ [])
    ∷ (80 ∷ 119 ∷ [])
    ∷ (75 ∷ 101 ∷ 121 ∷ [])
    ∷ (84 ∷ 105 ∷ 109 ∷ 101 ∷ 83 ∷ 116 ∷ 97 ∷ 109 ∷ 112 ∷ [])
    ∷ (85 ∷ 117 ∷ 105 ∷ 100 ∷ [])
    ∷ (83 ∷ 105 ∷ 103 ∷ 110 ∷ [])
    ∷ (65 ∷ 100 ∷ 83 ∷ 112 ∷ 97 ∷ 99 ∷ 101 ∷ 84 ∷ 121 ∷ 112 ∷ 101 ∷ [])
    ∷ (68 ∷ 101 ∷ 118 ∷ 105 ∷ 99 ∷ 101 ∷ 84 ∷ 121 ∷ 112 ∷ 101 ∷ [])
    ∷ (83 ∷ 100 ∷ 107 ∷ 86 ∷ 101 ∷ 114 ∷ 115 ∷ 105 ∷ 111 ∷ 110 ∷ [])
    ∷ (65 ∷ 112 ∷ 112 ∷ 73 ∷ 100 ∷ [])
    ∷ (65 ∷ 115 ∷ 115 ∷ 85 ∷ 114 ∷ 105 ∷ [])
    ∷ (65 ∷ 115 ∷ 115 ∷ 73 ∷ 112 ∷ [])
    ∷ (65 ∷ 100 ∷ 78 ∷ 117 ∷ 109 ∷ [])
    ∷ []

pub ais_get_mask : List ℕ → ℕ
ais_get_mask pp = get_mask params pp

-- key, adid, adspace, url, ver, sign, AssUri, AssIp
abbrev pub params_offline : List (List ℕ)
params_offline =
    (107 ∷ 101 ∷ 121 ∷ [])
    ∷ (97 ∷ 100 ∷ 105 ∷ 100 ∷ [])
    ∷ (97 ∷ 100 ∷ 115 ∷ 112 ∷ 97 ∷ 99 ∷ 101 ∷ [])
    ∷ (117 ∷ 114 ∷ 108 ∷ [])
    ∷ (118 ∷ 101 ∷ 114 ∷ [])
    ∷ (115 ∷ 105 ∷ 103 ∷ 110 ∷ [])
    ∷ (65 ∷ 115 ∷ 115 ∷ 85 ∷ 114 ∷ 105 ∷ [])
    ∷ (65 ∷ 115 ∷ 115 ∷ 73 ∷ 112 ∷ [])
    ∷ []

pub ais_getoffline_mask : List ℕ → ℕ
ais_getoffline_mask pp = get_mask params_offline pp

-- format, key, startdate, enddate, sign, TimeStamp, groupby
abbrev pub params_report : List (List ℕ)
params_report =
    (102 ∷ 111 ∷ 114 ∷ 109 ∷ 97 ∷ 116 ∷ [])
    ∷ (107 ∷ 101 ∷ 121 ∷ [])
    ∷ (115 ∷ 116 ∷ 97 ∷ 114 ∷ 116 ∷ 100 ∷ 97 ∷ 116 ∷ 101 ∷ [])
    ∷ (101 ∷ 110 ∷ 100 ∷ 100 ∷ 97 ∷ 116 ∷ 101 ∷ [])
    ∷ (115 ∷ 105 ∷ 103 ∷ 110 ∷ [])
    ∷ (84 ∷ 105 ∷ 109 ∷ 101 ∷ 83 ∷ 116 ∷ 97 ∷ 109 ∷ 112 ∷ [])
    ∷ (103 ∷ 114 ∷ 111 ∷ 117 ∷ 112 ∷ 98 ∷ 121 ∷ [])
    ∷ []

pub ais_getreport_mask : List ℕ → ℕ
ais_getreport_mask pp = get_mask params_report pp

-- format, sessionid, callbacktype, Schema, AssUri, AssIp, id, device, ...
abbrev pub params_callback : List (List ℕ)
params_callback =
    (102 ∷ 111 ∷ 114 ∷ 109 ∷ 97 ∷ 116 ∷ [])
    ∷ (115 ∷ 101 ∷ 115 ∷ 115 ∷ 105 ∷ 111 ∷ 110 ∷ 105 ∷ 100 ∷ [])
    ∷ (99 ∷ 97 ∷ 108 ∷ 108 ∷ 98 ∷ 97 ∷ 99 ∷ 107 ∷ 116 ∷ 121 ∷ 112 ∷ 101 ∷ [])
    ∷ (83 ∷ 99 ∷ 104 ∷ 101 ∷ 109 ∷ 97 ∷ [])
    ∷ (65 ∷ 115 ∷ 115 ∷ 85 ∷ 114 ∷ 105 ∷ [])
    ∷ (65 ∷ 115 ∷ 115 ∷ 73 ∷ 112 ∷ [])
    ∷ (105 ∷ 100 ∷ [])
    ∷ (100 ∷ 101 ∷ 118 ∷ 105 ∷ 99 ∷ 101 ∷ [])
    ∷ (112 ∷ [])
    ∷ []

pub ais_getcallback_mask : List ℕ → ℕ
ais_getcallback_mask pp = get_mask params_callback pp
