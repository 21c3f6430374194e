-- ===== src/Examples/Pages.antt =====
-- The log, the series cache and the classification of a URL.
use opti_gate.Base.{
  ℕ, ◌+◌, String, Option, none, some, List, [], ◌∷◌, Bool, true, false, ◌≡◌, refl, inl, inr, In,
  ◌⊎◌, ◌<◌, any, leb, if◌then◌else◌, is_empty, upper, ◌==◌, string_eq, arith,
}
use opti_gate.Tables.{AccessRow}
use opti_gate.Proxy.Log.{log_access, is_repeat}
use opti_gate.Proxy.Recorded.{log_access-log_access}
use opti_gate.Proxy.Series.{cache_get, cache_put, missing}
use opti_gate.Proxy.Cache.{cache_get-cache_put}
use opti_gate.Proxy.Requests.{classify, occurs_in, guarded_markers}
use opti_gate.Proxy.Guarded.{is_other, classify-guarded}
use opti_gate.Examples.Household.{platform, home}

abbrev visit : AccessRow
visit = record {
  ts = 0;
  user_id = some 1;
  username = "child";
  domain = "homework";
  path = some "/page?x=1";
  series_id = none;
  series_name = none;
  allowed = true;
  reason = "user_domain";
  device_id = some 1;
  ip_address = some "10.0.0.10";
  block_source = none;
}

first_visit : any (is_repeat 50 visit) home.access_log ≡ false
unfolding any
first_visit = refl

log_access-log_access_example :
    log_access (log_access home 50 visit) 350 visit ≡ log_access home 50 visit
log_access-log_access_example = log_access-log_access home 50 350 visit first_visit (ground arith)

stored : is_empty (upper "gr1") ≡ false
unfolding upper
stored = refl

not_missing : (upper "gr1" == missing) ≡ false
unfolding upper
not_missing = refl

cache_get-cache_put_example :
    cache_get (cache_put home 50 "ep1" (some "gr1")) 60 "ep1" false ≡ some (some (upper "gr1"))
cache_get-cache_put_example =
    cache_get-cache_put home 50 60 "ep1" "gr1" false stored not_missing (inl (ground arith))

guarded : occurs_in "/watch/" (platform.casefold "HTTPS://X/WATCH/1") ≡ true
unfolding occurs_in opti_gate.Base.lower opti_gate.Proxy.Requests.starts_with
guarded = refl

classify-guarded_example : is_other (classify platform "HTTPS://X/WATCH/1").kind ≡ false
classify-guarded_example =
    classify-guarded platform "HTTPS://X/WATCH/1" "/watch/" (inl refl) guarded
