-- ===== src/Unicode.antt =====
-- libs/unicode: conversion between UTF-8 and UTF-16, and UTF-16 strings as keys of a hash map.
pub mod Convert
pub mod Hash
