-- ===== src/Adguard/Client.antt =====
-- common/adguard_client.py: the requests that AdGuard Home answers. The server and the network are
-- not this program's code: they are a parameter, of which a proof assumes only what `IsDocumented`
-- states, as the comments on the requests do.
use opti_gate.Base.{
  String, List, [], ◌∷◌, ◌++◌, Option, none, some, Bool, true, not, ◌≡◌, ◌&&◌, ◌==◌,
}
use opti_gate.Base.{string_eq, filter, update_where}

-- A run against the server: what it is afterwards, and the result; none is an exception, which keeps
-- what was sent before it.
abbrev pub Action : Type 0 → Type 0 → Type 0
Action S A = S → S × Option A

abbrev pub after : {S A B : Type 0} → S × Option A → (A → Action S B) → S × Option B
after (s, none) k = (s, none)
after (s, some a) k = k a s

infixl 5 ◌>>=◌
abbrev pub ◌>>=◌ : {S A B : Type 0} → Action S A → (A → Action S B) → Action S B
◌>>=◌ m k s = after (m s) k

abbrev pub done : {S A : Type 0} → A → Action S A
done a s = (s, some a)

-- A computation that may raise.
abbrev pub attempt : {S A : Type 0} → Option A → Action S A
attempt o s = (s, o)

-- A request that only reads.
abbrev pub ask : {S A : Type 0} → (S → Option A) → Action S A
ask read s = (s, read s)

unfoldable pub for_each : {S A : Type 0} → (A → Action S Unit) → List A → Action S Unit
for_each f [] = done tt
for_each f (a ∷ rest) = do _ ← f a; for_each f rest

-- An entry of `filters` in the status of the filtering.
pub record FilterList : Type 0 where
  pub url : String
  pub name : String
  pub enabled : Bool

-- The SafeSearch settings: the master switch, and the services.
pub record SafeSearch : Type 0 where
  pub enabled : Bool
  pub services : List (String × Bool)

pub record Rewrite : Type 0 where
  pub domain : String
  pub answer : String

-- The requests, at a fixed address and with fixed credentials.
pub record AdguardClient (S : Type 0) : Type 0 where
  pub get_custom_rules : S → Option (List String)
  pub set_custom_rules : List String → Action S Unit
  pub get_filters_status : S → Option (List FilterList)
  pub add_filter_url : String → String → Action S Unit
  pub set_filter_url_enabled : String → String → Bool → Action S Unit
  pub get_safesearch_status : S → Option SafeSearch
  pub set_safesearch_settings : SafeSearch → Action S Unit
  pub get_rewrites : S → Option (List Rewrite)
  pub add_rewrite : String → String → Action S Unit
  pub delete_rewrite : String → String → Action S Unit

-- What AdGuard Home holds.
pub record AdguardHome : Type 0 where
  pub user_rules : List String
  pub filters : List FilterList
  pub safesearch : SafeSearch
  pub rewrites : List Rewrite

abbrev pub is_rewrite : String → String → Rewrite → Bool
is_rewrite domain answer r = r.domain == domain && r.answer == answer

-- What the comments on the requests say of them: an answer is what the server holds, and a request
-- that returned has replaced, added or removed what it names, and nothing else. Of a request that
-- raised nothing is assumed.
pub record IsDocumented {S : Type 0} (α : AdguardClient S) (home : S → AdguardHome) : Type 0 where
  pub reads_rules :
      (s : S) (r : List String) → α.get_custom_rules s ≡ some r → r ≡ (home s).user_rules
  pub sets_rules :
      (r : List String) (s t : S)
      → α.set_custom_rules r s ≡ (t, some tt)
      → home t ≡ record (home s) { user_rules = r }
  pub reads_filters :
      (s : S) (r : List FilterList) → α.get_filters_status s ≡ some r → r ≡ (home s).filters
  pub adds_filter :
      (name url : String) (s t : S)
      → α.add_filter_url name url s ≡ (t, some tt)
      → home t ≡ record (home s) {
        filters = (home s).filters ++ (record { url = url; name = name; enabled = true } ∷ []);
      }
  pub sets_filter :
      (url name : String) (enabled : Bool) (s t : S)
      → α.set_filter_url_enabled url name enabled s ≡ (t, some tt)
      → home t ≡ record (home s) {
        filters =
            update_where
              (λ (f : FilterList). f.url == url)
              (λ _. record { url = url; name = name; enabled = enabled })
              (home s).filters;
      }
  pub reads_safesearch :
      (s : S) (c : SafeSearch) → α.get_safesearch_status s ≡ some c → c ≡ (home s).safesearch
  pub sets_safesearch :
      (c : SafeSearch) (s t : S)
      → α.set_safesearch_settings c s ≡ (t, some tt)
      → home t ≡ record (home s) { safesearch = c }
  pub reads_rewrites :
      (s : S) (r : List Rewrite) → α.get_rewrites s ≡ some r → r ≡ (home s).rewrites
  pub adds_rewrite :
      (domain answer : String) (s t : S)
      → α.add_rewrite domain answer s ≡ (t, some tt)
      → home t ≡ record (home s) {
        rewrites = (home s).rewrites ++ (record { domain = domain; answer = answer } ∷ []);
      }
  pub deletes_rewrite :
      (domain answer : String) (s t : S)
      → α.delete_rewrite domain answer s ≡ (t, some tt)
      → home t ≡ record (home s) {
        rewrites = filter (λ r. not (is_rewrite domain answer r)) (home s).rewrites;
      }
