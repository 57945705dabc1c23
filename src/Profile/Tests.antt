-- ===== src/Profile/Tests.antt =====
-- Runs of mobile/src/profileStorage.ts and mobile/src/profileNutrition.ts.
use foodler.Common.{◌≡◌, some, [], ◌∷◌}
use foodler.Text.{codes}
use foodler.Profile.{UserProfile, FamilyMember, default_profile, female, load_profile, save_profile}
use foodler.Profile.Stored.{load_profile-save_profile}

abbrev sister : FamilyMember
sister = record default_profile.owner {
  name = codes "Аня";
  gender = female;
  liked_foods = codes "хлеб" ∷ [];
  additional_info = some (codes "i");
}

abbrev family : UserProfile
family = record default_profile { family_members = sister ∷ [] }

load_profile-save_profile_example : load_profile (save_profile family) ≡ family
load_profile-save_profile_example = load_profile-save_profile family
