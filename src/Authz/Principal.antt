-- ===== src/Authz/Principal.antt =====
-- internal/authz/principal.go: who is asking.
pub mod Order
pub mod Normal
use xemu_cartographer.Base.{
  ℕ, Bool, true, false, ◌==◌, ltb, ◌||◌, List, [], ◌∷◌, Option, none, some, if◌then◌else◌, is_empty,
}
use xemu_cartographer.Text.{Text, codes, text_eq, elem, Attrs, attr}
use xemu_cartographer.Authz.Scope.{canon, match_any}

-- The kinds of the source are strings; `other_kind` stands for any string that is no constant.
pub data Kind : Type 0 where
  pb_user superuser machine spectator device anonymous discord internal other_kind : Kind

pub Kind-discrete : Discrete Kind
Kind-discrete = hlevel

-- Levels are those of the roles table, which are not negative.
pub record Principal : Type 0 where
  pub kind : Kind
  pub id : Text
  pub user_id : Text
  pub collection : Text
  pub roles : List Text
  pub scopes : List Text
  pub level : ℕ
  pub bound : Attrs
  pub extra : Attrs

-- Kind.Known
unfoldable pub kind_known : Kind → Bool
kind_known other_kind = false
kind_known _ = true

unfoldable pub has_role : Principal → Text → Bool
has_role p slug = if is_empty slug then false else elem slug p.roles

abbrev found : Option Text → Bool
found none = false
found (some s) = true

unfoldable pub has_scope : Principal → Text → Bool
has_scope p want = found (match_any p.scopes want)

unfoldable pub bound_instance : Principal → Text
bound_instance p = attr (codes "instance") p.bound

abbrev is_superuser : Kind → Bool
is_superuser superuser = true
is_superuser _ = false

unfoldable pub is_admin : Principal → Bool
is_admin p = is_superuser p.kind || has_role p (codes "admin")

unfoldable pub audit_actor_id : Principal → Text
audit_actor_id p = if text_eq p.collection (codes "users") then p.user_id else []

-- sort.Strings orders by bytes, which is the order of the code points.
unfoldable pub text_le : Text → Text → Bool
text_le [] t = true
text_le (x ∷ s) [] = false
text_le (x ∷ s) (y ∷ t) = if x == y then text_le s t else ltb x y

unfoldable pub insert_text : Text → List Text → List Text
insert_text s [] = s ∷ []
insert_text s (t ∷ ts) = if text_le s t then s ∷ t ∷ ts else t ∷ insert_text s ts

unfoldable pub sort_texts : List Text → List Text
sort_texts [] = []
sort_texts (s ∷ ss) = insert_text s (sort_texts ss)

-- The loop of CanonScopes: `seen` holds what was kept so far.
unfoldable pub canon_new : List Text → List Text → List Text
canon_new seen [] = []
canon_new seen (s ∷ ss) =
    let skipped = canon_new seen ss in
    let kept = canon s ∷ canon_new (canon s ∷ seen) ss in
    if is_empty (canon s) || elem (canon s) seen then skipped else kept

unfoldable pub canon_scopes : List Text → List Text
canon_scopes scopes = sort_texts (canon_new [] scopes)

abbrev pub bind_instance : Text → Attrs
bind_instance inst = if is_empty inst then [] else (codes "instance", inst) ∷ []

abbrev pub empty_principal : Kind → Principal
empty_principal k = record {
  kind = k;
  id = [];
  user_id = [];
  collection = [];
  roles = [];
  scopes = [];
  level = 0;
  bound = [];
  extra = [];
}

-- Anonymous: the console-door principal.
unfoldable pub new_anonymous : Text → List Text → Principal
new_anonymous bound_to scopes = record (empty_principal anonymous) {
  scopes = canon_scopes scopes;
  bound = bind_instance bound_to;
}

-- Internal
unfoldable pub new_internal : Text → Principal
new_internal actor = record (empty_principal internal) { id = actor }

-- Superuser
unfoldable pub new_superuser : Text → Principal
new_superuser id = record (empty_principal superuser) { id = id; collection = codes "_superusers" }

-- Nobody: no credential at all
unfoldable pub nobody : Principal
nobody = empty_principal anonymous
