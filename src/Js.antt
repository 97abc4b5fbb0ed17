-- ===== src/Js.antt =====
-- libs/js: the JavaScript interpreter.
pub mod TokenType
pub mod Token
pub mod Node
pub mod Lex
pub mod Grammar
pub mod Data
pub mod Descriptor
pub mod Object
pub mod Float
pub mod Conversion
pub mod Eval
pub mod Global
