-- ===== src/Field/Enums.antt =====
-- field.cpp's `Field_enum::unpack` on the index of an element.
