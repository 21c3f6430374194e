-- ===== src/Proxy/Requests.antt =====
-- common/cr_urls.py: what kind of request a Crunchyroll URL is.
use opti_gate.Base.{
  String, none, some, Bool, true, false, not, ◌||◌, List, [], ◌∷◌, map, filter, any,
}
use opti_gate.Base.{nat_eq, string_eq, if◌then◌else◌, is_empty, upper, split_on}
use text.Mathlib.Text.{◌==◌ as str_eq}
use opti_gate.Platform.{Platform}

pub data RequestKind : Type 0 where
  series_page watch_page playback up_next cms_objects blocked_shape other : RequestKind

pub record ClassifiedRequest : Type 0 where
  pub kind : RequestKind
  pub ids : List String

abbrev pub series_url_re : String
series_url_re =
    "^https://www\\.crunchyroll\\.com/series/([A-Za-z0-9]+)(?:/[^?#]*)?(?:\\?[^#]*)?(?:#.*)?$"

abbrev pub watch_url_re : String
watch_url_re =
    "^https://www\\.crunchyroll\\.com/watch/([A-Za-z0-9]+)(?:/[^?#]*)?(?:\\?[^#]*)?(?:#.*)?$"

abbrev pub playback_url_re : String
playback_url_re =
    "^https://www\\.crunchyroll\\.com/playback/v\\d+/(?:(?:manifest|token)/)?([A-Za-z0-9]+)(?:/.*)?$"

abbrev pub cms_objects_url_re : String
cms_objects_url_re =
    "^https://www\\.crunchyroll\\.com/content/v\\d+/cms/objects/([A-Za-z0-9]+(?:,[A-Za-z0-9]+)*)(?:\\?[^#]*)?(?:#.*)?$"

abbrev pub up_next_url_re : String
up_next_url_re =
    "^https://www\\.crunchyroll\\.com/content/v\\d+/discover/up_next/([A-Za-z0-9]+)(?:\\?[^#]*)?(?:#.*)?$"

abbrev pub guarded_markers : List String
guarded_markers = "/watch/" ∷ "/playback/" ∷ "/cms/objects/" ∷ "/discover/up_next/" ∷ []

unfoldable pub starts_with : String → String → Bool
starts_with String.[] s = true
starts_with (String.◌∷◌ p ps) String.[] = false
starts_with (String.◌∷◌ p ps) (String.◌∷◌ c s) =
    if str_eq (String.◌∷◌ p String.[]) (String.◌∷◌ c String.[]) then starts_with ps s else false

-- Python's `part in text`.
unfoldable pub occurs_in : String → String → Bool
occurs_in part String.[] = is_empty part
occurs_in part (String.◌∷◌ c s) = starts_with part (String.◌∷◌ c s) || occurs_in part s

unfoldable pub request : RequestKind → List String → ClassifiedRequest
request kind ids = record { kind = kind; ids = ids }

-- The tail of `classify`: a guarded route in no known shape is blocked.
unfoldable pub classify_unmatched : Platform → String → ClassifiedRequest
classify_unmatched π url =
    if any (λ marker. occurs_in marker (π.casefold url)) guarded_markers
    then request RequestKind.blocked_shape []
    else request RequestKind.other []

-- Metadata of no object is blocked.
unfoldable pub cms_request : List String → ClassifiedRequest
cms_request [] = request RequestKind.blocked_shape []
cms_request (i ∷ ids) = request RequestKind.cms_objects (i ∷ ids)

unfoldable pub classify_cms : String → ClassifiedRequest
classify_cms group =
    cms_request (map upper (filter (λ part. not (is_empty part)) (split_on b',' group)))

unfoldable pub classify : Platform → String → ClassifiedRequest
classify π url =
    if is_empty url
    then request RequestKind.blocked_shape []
    else elim (π.fullmatch series_url_re url) [
      | some g ↦ request RequestKind.series_page (upper g ∷ [])
      | none ↦ elim (π.fullmatch watch_url_re url) [
        | some g ↦ request RequestKind.watch_page (upper g ∷ [])
        | none ↦ elim (π.fullmatch playback_url_re url) [
          | some g ↦ request RequestKind.playback (upper g ∷ [])
          | none ↦ elim (π.fullmatch up_next_url_re url) [
            | some g ↦ request RequestKind.up_next (upper g ∷ [])
            | none ↦ elim (π.fullmatch cms_objects_url_re url) [
              | some g ↦ classify_cms g
              | none ↦ classify_unmatched π url
            ]
          ]
        ]
      ]
    ]
