-- ===== src/Rules.antt =====
-- app/rules.py: rule sets in a subset of JsonLogic.
pub mod Numbers
pub mod Json
pub mod Syntax
pub mod Validate
pub mod Operators
pub mod Evaluate
pub mod Typing
pub mod Operations
pub mod Supplies
pub mod Inversion
pub mod Arguments
pub mod Variables
pub mod Soundness
pub mod Normalise
pub mod Context
pub mod Limits
pub mod RuleSet
pub mod Scoring
pub mod Validity
pub mod Published
pub mod Examples
