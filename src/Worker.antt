-- ===== src/Worker.antt =====
-- server/worker.cpp: the worker that carries out the jobs. GDAL/OGR is a parameter: a data source is
-- given by what its functions return.
pub mod Source
pub mod Convert
pub mod Columns
pub mod Features
pub mod Statements
pub mod Pull
pub mod Removal
pub mod Loop
use batyr.Prelude.{ℕ, Bool, List, Option, none, some, Text, ℤ}

-- `OGRFieldType` of GDAL 2; `other` has a number that the code knows no type for.
pub data OgrFieldType : Type 0 where
  oft_integer oft_integer_list oft_real oft_real_list oft_string oft_string_list : OgrFieldType
  oft_binary oft_date oft_time oft_date_time oft_integer64 oft_integer64_list : OgrFieldType
  oft_other : ℕ → OgrFieldType

-- What becomes of the geometry of a feature on its way to hexadecimal WKB: no geometry, a failure
-- of one of the three calls, or the size of the buffer and the text.
pub data GeometryExport : Type 0 where
  no_geometry no_buffer not_exported no_hex : GeometryExport
  exported : ℕ → Text → GeometryExport

-- `GetFieldAsDateTime`: year, month, day, hour, minute and second.
pub record DateTime : Type 0 where
  pub year : ℤ
  pub month : ℤ
  pub day : ℤ
  pub hour : ℤ
  pub minute : ℤ
  pub second : ℤ

-- An `OGRFeature`: its accessors at the index of a field. A real number is given by the text that
-- `std::to_string` makes of it.
pub record Feature : Type 0 where
  pub fid : ℤ
  pub geometry : GeometryExport
  pub is_field_set : ℕ → Bool
  pub as_string : ℕ → Text
  pub as_integer : ℕ → ℤ
  pub as_double : ℕ → Text
  pub as_date_time : ℕ → Option DateTime

-- An `OGRLayer`: `set_filter` is `none` for `OGRERR_NONE`, and otherwise what
-- `CPLGetLastErrorMsg` returns, where the inner `none` is a null pointer; `features` are those that the filter lets through.
pub record OgrLayer : Type 0 where
  pub fields : List (Text × OgrFieldType)
  pub fid_column : Text
  pub geometry_fields : ℕ
  pub set_filter : Text → Option (Option Text)
  pub features : Text → List Feature

-- An opened dataset: `GetLayerByName`, and for each layer its name, or `none` where it cannot be
-- opened.
pub record Dataset : Type 0 where
  pub layer_by_name : Text → Option OgrLayer
  pub layer_names : List (Option Text)
