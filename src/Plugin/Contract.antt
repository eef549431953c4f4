-- ===== src/Plugin/Contract.antt =====
-- What the services rely on of the index plugin, as laws over a reading of the store:
-- `related s ns a by v` are the values of `a` that the index relates to `v` of `by`, and `Right`
-- is what the plugin keeps of itself. Database/Index/Contract shows that the database meets it.
use baetyl_cloud.Common.{String, ◌≡◌, ◌≢◌, List}
use baetyl_cloud.Common.Action.{ok, Action}
use baetyl_cloud.Database.Index.{Resource}
use baetyl_cloud.Plugin.{IndexPlugin}

pub record IndexContract {S : Type 0} (index : IndexPlugin S) (Right : S → Type 0)
    (related : S → String → Resource → Resource → String → List String) : Type 0 where
  pub listed :
      (ns : String) (a by : Resource) (v : String) (s : S) {res : List String} {t : S}
      → Right s
      → index.list ns a by v s ≡ (ok res, t)
      → Right t × (res ≡ related s ns a by v)
  pub refreshed :
      (ns : String) (a b : Resource) (va : String) (vbs : List String) (s : S) {t : S}
      → a ≢ b
      → Right s
      → index.refresh ns a b va vbs s ≡ (ok tt, t)
      → Right t × (related t ns b a va ≡ vbs)
  pub elsewhere :
      (ns ns' : String) (a b c : Resource) (va v : String) (vbs : List String) (s : S) {t : S}
      → b ≢ c
      → Right s
      → index.refresh ns a b va vbs s ≡ (ok tt, t)
      → related t ns' c a v ≡ related s ns' c a v

-- An action that leaves what `P` says of the store.
abbrev pub Keeps : {S A : Type 0} → (S → Type 0) → Action S A → Type 0
Keeps {S} P m = (s : S) → P s → P (m s).1
