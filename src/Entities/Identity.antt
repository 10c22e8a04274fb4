-- ===== src/Entities/Identity.antt =====
-- How the entities are registered: the unique id and the device of each one, as the `__init__` of its
-- class sets them. The texts of the entities' names, icons and units are left out.
pub mod Sensors
pub mod BinarySensors
pub mod Controls
pub mod Platforms
pub mod Unique
use haos_aqara.Base.{String, List, [], ◌∷◌, ◌++◌, Text, codes}

-- `DOMAIN`
abbrev pub domain : Text
domain = codes "aqara_u200"

-- What is passed to the constructors of the entities: `entry.runtime_data.address` and `entry.title`.
pub record Owner : Type 0 where
  pub address : Text
  pub title : Text

pub record DeviceInfo : Type 0 where
  pub identifiers : List (Text × Text)
  pub manufacturer : Text
  pub model : Text
  pub name : Text

pub record Identity : Type 0 where
  pub unique_id : Text
  pub device_info : DeviceInfo

-- `f"{address}_{key}"`
unfoldable pub unique_id_of : Text → String → Text
unique_id_of address key = address ++ (codes "_" ++ codes key)

unfoldable pub device_info_of : Owner → DeviceInfo
device_info_of entry = record {
  identifiers = (domain, entry.address) ∷ [];
  manufacturer = codes "Aqara";
  model = codes "U200";
  name = entry.title;
}

unfoldable pub identity_of : Owner → String → Identity
unfolding unique_id_of device_info_of
identity_of entry key = record {
  unique_id = unique_id_of entry.address key;
  device_info = device_info_of entry;
}
