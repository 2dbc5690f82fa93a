-- ===== src/Projects/Tests.antt =====
-- A project, its members, and the theorems on them at that project.
use outbox_service.Prelude.{◌≡◌, refl, true, false, none, some, [], ◌∷◌, ok, err, String}
use outbox_service.Projects.Model.{
  UserRole, owner, developer, viewer, Project, ProjectMember, UserAccount, Directory, last_owner,
  count_owners, find_by_project_and_user, delete_member,
}
use outbox_service.Projects.Service.{create_project, is_taken, with_project}
use outbox_service.Projects.Members.{
  add_member, remove_member, update_member_role, ensure_project_exists, find_by_email, absent,
  with_member, get_membership, guard_last_owner, ensure_not_last_owner,
}
use outbox_service.Projects.Permissions.{
  metrics_write, has_project_permission, require_project_permission, insufficient_permissions,
}
use outbox_service.Projects.Ownership.{IsOwned}
use outbox_service.Projects.Changes.{
  unchanged, then_change, creates, adds, removes, Changes-IsOwned,
}
use outbox_service.Projects.Revocation.{IsUnique, remove_member-revokes}
use outbox_service.Projects.Overlap.{remove_member_overlapping}

abbrev same_case : String → String
same_case s = s

abbrev ann : UserAccount
ann = record { id = 1; email = "ann@a.example"; role = UserRole.user }

abbrev bob : UserAccount
bob = record { id = 2; email = "bob@a.example"; role = UserRole.user }

abbrev no_projects : Directory
no_projects = record {
  projects = [];
  users = ann ∷ bob ∷ [];
  members = [];
  next_project_id = 1;
  next_member_id = 1;
}

abbrev founder : ProjectMember
founder = record { id = 1; project_id = 1; user_id = 1; role = owner }

abbrev helper : ProjectMember
helper = record { id = 2; project_id = 1; user_id = 2; role = developer }

abbrev founded : Directory
founded = record no_projects {
  projects = record { id = 1; name = "shop"; description = none; is_active = true } ∷ [];
  members = founder ∷ [];
  next_project_id = 2;
  next_member_id = 2;
}

abbrev joined : Directory
joined = record founded { members = founder ∷ helper ∷ []; next_member_id = 3 }

abbrev parted : Directory
parted = record joined { members = founder ∷ [] }

ann_founds : create_project same_case 1 "shop" none no_projects ≡ ok founded
unfolding create_project is_taken with_project
ann_founds = refl

bob_joins : add_member 1 "bob@a.example" developer founded ≡ ok joined
unfolding add_member ensure_project_exists find_by_email absent find_by_project_and_user with_member
bob_joins = refl

bob_leaves : remove_member 1 2 joined ≡ ok parted
unfolding remove_member ensure_project_exists get_membership guard_last_owner
    find_by_project_and_user delete_member
bob_leaves = refl

-- the last owner can neither leave nor step down
ann_stays : remove_member 1 1 joined ≡ err last_owner
unfolding remove_member ensure_project_exists get_membership guard_last_owner ensure_not_last_owner
    count_owners find_by_project_and_user
ann_stays = refl

ann_remains_owner : update_member_role 1 1 viewer joined ≡ err last_owner
unfolding update_member_role ensure_project_exists get_membership guard_last_owner
    ensure_not_last_owner count_owners find_by_project_and_user
ann_remains_owner = refl

Changes-IsOwned_example : IsOwned parted
Changes-IsOwned_example =
    Changes-IsOwned same_case no_projects parted (record { keyed = tt; fresh = tt; owned = tt })
      (then_change
        (then_change (then_change unchanged (creates 1 "shop" none ann_founds))
          (adds 1 "bob@a.example" developer bob_joins))
        (removes 1 2 bob_leaves))

joined-IsUnique : IsUnique joined.members
unfolding find_by_project_and_user
joined-IsUnique = (refl, (refl, tt))

remove_member-revokes_example :
    (has_project_permission 2 1 metrics_write parted ≡ false)
    × (require_project_permission metrics_write 1 bob parted ≡ err insufficient_permissions)
remove_member-revokes_example =
    remove_member-revokes 1 bob metrics_write joined parted joined-IsUnique bob_leaves

abbrev shop : Project
shop = record { id = 1; name = "shop"; description = none; is_active = true }

abbrev second_owner : ProjectMember
second_owner = record { id = 2; project_id = 1; user_id = 2; role = owner }

abbrev two_owners : Directory
two_owners = record joined { members = founder ∷ second_owner ∷ [] }

shop_exists : ensure_project_exists 1 two_owners ≡ ok shop
unfolding ensure_project_exists
shop_exists = refl

first_found : find_by_project_and_user 1 1 two_owners.members ≡ some founder
unfolding find_by_project_and_user
first_found = refl

second_found : find_by_project_and_user 1 2 two_owners.members ≡ some second_owner
unfolding find_by_project_and_user
second_found = refl

two_counted : count_owners 1 two_owners.members ≡ 2
unfolding count_owners
two_counted = refl

remove_member_overlapping_example :
    (remove_member 1 1 two_owners ≡ ok (record two_owners { members = second_owner ∷ [] }))
    × (remove_member 1 2 two_owners ≡ ok (record two_owners { members = founder ∷ [] }))
    × (count_owners 1 [] ≡ 0)
unfolding delete_member
remove_member_overlapping_example =
    remove_member_overlapping 1 1 2 two_owners shop founder second_owner ((refl, tt), (tt, tt))
      shop_exists first_found second_found refl refl refl two_counted
