-- ===== src/Types/Permission.antt =====
-- types/account.go: the role bits of a user and the permission that they make up.
use Prim.Native.Nat.{bit_and}
use go_crawling_bazaar.Base.{
  ℕ, String, Bool, true, false, not, ◌||◌, List, [], ◌∷◌, Option, none, some, nat_beq, ltb, ◌==◌,
  string_key, if◌then◌else◌,
}

-- UserPermissionRole: 1 << iota.
abbrev pub read_role : ℕ
read_role = 1

abbrev pub write_role : ℕ
write_role = 2

abbrev pub super_role : ℕ
super_role = 4

abbrev pub invalid_role : ℕ
invalid_role = 8

abbrev pub admin_role : ℕ
admin_role = 7

abbrev pub void_role : ℕ
void_role = 0

-- The cache of the patterns is left out: it holds the patterns.
pub record UserPermission : Type 0 where
  pub role : ℕ
  pub patterns : List String

-- UserPermissionFromRole
abbrev pub user_permission_from_role : ℕ → UserPermission
user_permission_from_role r = record { role = r; patterns = [] }

has_role : ℕ → Option UserPermission → Bool
has_role bit none = false
has_role bit (some p) = not (nat_beq (bit_and p.role bit) 0)

-- HasReadPermission, HasWritePermission, HasSuperPermission: false on a nil permission.
unfoldable pub has_read_permission : Option UserPermission → Bool
unfolding has_role
has_read_permission p = has_role read_role p

unfoldable pub has_write_permission : Option UserPermission → Bool
unfolding has_role
has_write_permission p = has_role write_role p

unfoldable pub has_super_permission : Option UserPermission → Bool
unfolding has_role
has_super_permission p = has_role super_role p

-- IsValid; the role is an int32.
unfoldable pub is_valid : Option UserPermission → Bool
is_valid none = false
is_valid (some p) = ltb p.role invalid_role

-- cachedPatternMap[q]
unfoldable pub pattern_listed : String → List String → Bool
pattern_listed q [] = false
pattern_listed q (p ∷ ps) = p == q || pattern_listed q ps

first_disallowed : List String → List String → String × Bool
unfolding pattern_listed
first_disallowed ps [] = ("", false)
first_disallowed ps (q ∷ qs) =
    let rest = first_disallowed ps qs in if pattern_listed q ps then rest else (q, true)

-- HasDisallowedQueryPatterns: the first query whose pattern is not listed, and whether one is.
pub has_disallowed_query_patterns : Option UserPermission → List String → String × Bool
unfolding first_disallowed
has_disallowed_query_patterns none qs = ("", true)
has_disallowed_query_patterns (some p) qs = elim p.patterns [
  | [] ↦ ("", false)
  | pattern ∷ rest ↦ first_disallowed (pattern ∷ rest) qs
]
