-- ===== src/Proxy/Guarded.antt =====
-- common/cr_urls.py, lines 77 to 115: a guarded route never counts as an ordinary page.
use opti_gate.Base.{String, Bool, true, false, List, [], ◌∷◌, is_empty}
use opti_gate.Base.{◌≡◌, refl, inl, inr, Bool-cases, Option-cases, In, any-In}
use opti_gate.Platform.{Platform}
use opti_gate.Proxy.Requests.{
  RequestKind, request, classify, classify_unmatched, classify_cms, cms_request, occurs_in,
  guarded_markers,
}
use opti_gate.Proxy.Requests.{
  series_url_re, watch_url_re, playback_url_re, up_next_url_re, cms_objects_url_re,
}

-- Is it the kind that is checked against the path rules alone?
abbrev pub is_other : RequestKind → Bool
is_other RequestKind.other = true
is_other RequestKind.series_page = false
is_other RequestKind.watch_page = false
is_other RequestKind.playback = false
is_other RequestKind.up_next = false
is_other RequestKind.cms_objects = false
is_other RequestKind.blocked_shape = false

cms_request-guarded : (ids : List String) → is_other (cms_request ids).kind ≡ false
unfolding cms_request request
cms_request-guarded [] = refl
cms_request-guarded (i ∷ ids) = refl

classify_cms-guarded : (group : String) → is_other (classify_cms group).kind ≡ false
unfolding classify_cms
classify_cms-guarded group = cms_request-guarded _

-- Whatever the patterns match: a URL with a guarded marker in it, in any case of its letters, is
-- never of the kind that only path rules check.
pub classify-guarded :
    (π : Platform) (url marker : String)
    → In marker guarded_markers
    → occurs_in marker (π.casefold url) ≡ true
    → is_other (classify π url).kind ≡ false
unfolding classify classify_unmatched request
classify-guarded π url marker m h =
    let k = any-In (λ x. occurs_in x (π.casefold url)) marker guarded_markers m h in
    elim (Bool-cases (is_empty url)) [
      | inl e ↦ rw (classify, e) refl
      | inr e ↦ elim (Option-cases (π.fullmatch series_url_re url)) [
        | inr (g, s) ↦ rw (classify, e, s) refl
        | inl s ↦ elim (Option-cases (π.fullmatch watch_url_re url)) [
          | inr (g, w) ↦ rw (classify, e, s, w) refl
          | inl w ↦ elim (Option-cases (π.fullmatch playback_url_re url)) [
            | inr (g, p) ↦ rw (classify, e, s, w, p) refl
            | inl p ↦ elim (Option-cases (π.fullmatch up_next_url_re url)) [
              | inr (g, u) ↦ rw (classify, e, s, w, p, u) refl
              | inl u ↦ elim (Option-cases (π.fullmatch cms_objects_url_re url)) [
                | inr (g, c) ↦ rw (classify, e, s, w, p, u, c) (classify_cms-guarded g)
                | inl c ↦ rw (classify, e, s, w, p, u, c, classify_unmatched, k) refl
              ]
            ]
          ]
        ]
      ]
    ]
