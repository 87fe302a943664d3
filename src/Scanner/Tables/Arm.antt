-- ===== src/Scanner/Tables/Arm.antt =====
-- src/arch/arm/Frequency.hpp: the 512 pairs of bytes, in order, and their scores. A row of the source is
-- one number: its pairs are the digits to base 65536, and its scores those to base 4096.
use libhat.Prelude.{ℕ, List, [], ◌∷◌}
use libhat.Scanner.Tables.{unpack_pairs, unpack_scores}

abbrev pub pairs_x1_rows : List ℕ
pairs_x1_rows =
    0x0000000100080011001200140020002A ∷ 0x00340035003600370039004000510054
    ∷ 0x00710079008000900091009400A900AA ∷ 0x00B000B400B500B900D000D100F000F1
    ∷ 0x00F900FD01000101010501080109010A ∷ 0x010B010C0115013F0140015401710180
    ∷ 0x0190019101A901AA01B001B901D001D1 ∷ 0x01F001F9020002010205020802400280
    ∷ 0x029102A902AA02F90300030103020303 ∷ 0x03040305030803090313031403150316
    ∷ 0x031703180319031A031B031C031F0340 ∷ 0x035F0380039103A903AA040004400480
    ∷ 0x049104A9050005010540059106000640 ∷ 0x06800691070007400780079108000801
    ∷ 0x08050809081008110821084008410861 ∷ 0x0881088B089108A108AA08C108CB08EB
    ∷ 0x0900090109050940096B098B099109EB ∷ 0x0A000A010A400AEB0B000B400C000D00
    ∷ 0x0D400E000E400F000F40100010401100 ∷ 0x1140120012401300134013AA140014AA
    ∷ 0x14E014E814EB150015AA15EB164016AA ∷ 0x170017081740179F17AA17E017E818AA
    ∷ 0x190019AA1A001A401AAA1B001B401BAA ∷ 0x1CAA1D001F001F011F051F091F201F2A
    ∷ 0x1F401F411F7C1FAA20002001208020D4 ∷ 0x21002140220022402300230123402700
    ∷ 0x2740280028012900290129052A002AE0 ∷ 0x2B002B402F002F40330033403908391F
    ∷ 0x39E83D003DE03F003F013F053FD64000 ∷ 0x4001403940794091409240A940B140B9
    ∷ 0x40F240F840F940FD4100413941A941B9 ∷ 0x41F841F9420042A942B942F943004301
    ∷ 0x434043A943F944A944F945F94A01511F ∷ 0x52085209521F52E052E352E853C25408
    ∷ 0x5409541F54285429543F5468548854E0 ∷ 0x54E854E954FE5B015B415F015FD65FF8
    ∷ 0x6000600261006200630068006802680A ∷ 0x69026B0171617C927CD37D927DD37F01
    ∷ 0x7F028000803D80528100820083008301 ∷ 0x830288008802889A899A900891009101
    ∷ 0x910291039108911F912291C091E091E1 ∷ 0x91E291E391E491E891E991FF94209468
    ∷ 0x94E094E194E89720976897E097E197E8 ∷ 0x9F029F1AA000A100A300A802A8C0A908
    ∷ 0xA91FA9E0A9E8A9F3A9F5A9F7A9F9A9FE ∷ 0xA9FFAA00AA01AA02AA03AA08AA1FAAE0
    ∷ 0xAAE1AAE2AAE3AAE4AAE5AAE8AAF3AAF4 ∷ 0xAAF5AAF6AAF7AAFEAAFFB008B408B4E0
    ∷ 0xB908B909B91FB929B93FB968B9E0B9E1 ∷ 0xB9E8B9E9B9FFBF02C003C03DC100C2A8
    ∷ 0xC300C301C802D008D1F3D4FFD6E0DF02 ∷ 0xE003E007E00FE023E043E063E083E0C3
    ∷ 0xE103E123E143E163E183E1C3E203E300 ∷ 0xE303E400E403E503E603E703E803E807
    ∷ 0xE80BE80FE813E817E823E827E843E903 ∷ 0xEA03EB01EB40EB61EBA1EBC1EBE1ED7C
    ∷ 0xF008F17DF303F353F403F503F55BF57B ∷ 0xF603F703F763F803F900F901F902F903
    ∷ 0xF908F909F90AF91FF920F921F928F929 ∷ 0xF92AF93FF940F948F968F969F96BF97F
    ∷ 0xF988F9A8F9C8F9E0F9E1F9E2F9E8F9E9 ∷ 0xF9EAF9F3F9F4F9F5F9F7F9FBF9FFFA03
    ∷ 0xFAFFFB73FBFFFCFFFDFFFE0BFEFFFF03 ∷ 0xFF17FF43FF54FF83FF97FFB4FFC3FFFF ∷ []

abbrev pub pairs_x1 : List (ℕ × ℕ)
pairs_x1 = unpack_pairs pairs_x1_rows

abbrev pub scores_x1_rows : List ℕ
scores_x1_rows =
    0x0020400D904F0A300E06F12A0480F007E0AE06E03205F001
    ∷ 0x0110F400D0870060430920180860240B801908F0B507401B
    ∷ 0x0040ED00A07814C0730210710C918B1C008C01C1A005E046
    ∷ 0x10B0270A205D1141561121451100A60160EE12C13701E0CA
    ∷ 0x04E0DF0C61A600902805C0CF1491E705716E01301A02A033
    ∷ 0x0540760A10D31061710100720360DB08112619505014E15D
    ∷ 0x0B718400C15503E0E204C0661D510104A0561FE15202E026
    ∷ 0x05815A17B16D0D10E61191D712D0CC13D15009813610E089
    ∷ 0x03809619108B0EC1381FD03B0771FF06A19006809E12B0D2
    ∷ 0x1A21330E30C50971171530B20F60FB0E40A90D501417901F
    ∷ 0x1201EB11D13002C1801E303D0D41E20DC1CF06405A16A093
    ∷ 0x1290BF19913A0F910010815F1CB11A03F0150531B91EC02D
    ∷ 0x0E11671CA02504510F14608005211B06513C04D1CD0DD169
    ∷ 0x1390AB10C0E00950FA18F1DF14816B1F119E18D1C31F90A4
    ∷ 0x1E114F1E41610611600850A71F50290D01DD1430B31A1007
    ∷ 0x1CE1440001B30791FB07B0C715B0390BA0C01AC0AD088111
    ∷ 0x1ED1031A81651BD1AD16C1AF0D61BE19D1731DC13B1C709D
    ∷ 0x0FF0B01721A418712417A0440821251701FA1C10D7037185
    ∷ 0x11F1420A514A0AA1920AF1831DE19819719C182132109188
    ∷ 0x1DA1640690030F111C06B1311CC1B60FD17D1961D317E1EA
    ∷ 0x1161F70C10CB1A709902002F07F0EB1F80941D11BA1AA151
    ∷ 0x06012306309A1B509B1860751A30B41C611E11316614D1D2
    ∷ 0x0AC1DB1F006D03A0830D80B607012E1341BB1B00591BC07C
    ∷ 0x0300490C41211B109C14B12F13F1E81F31E615C1E0122105
    ∷ 0x06215407D1B81C91C40E81F60DE12817419B03508A15E1B7
    ∷ 0x0BC19F1C51D90B11270E51D80050F21940C80F71D00CD135
    ∷ 0x00F1180F819310416301D1770421C809F0DA13E1E50340FC
    ∷ 0x1BF1811761C216810A1890C318C1AE1021D418E1AB1FC140
    ∷ 0x1EE0BB03C02304B0670411620910BE0840E90510C21F4107
    ∷ 0x01206C15702218A1EF0A00BD1E910D1A91580A81F20B917C
    ∷ 0x0FE16F1B202B0471150310901B408D1750EF17F19A07A1A5
    ∷ 0x1D61471780F308E1590550CE0080F50170E705B1410EA00B ∷ []

abbrev pub scores_x1 : List (ℕ)
scores_x1 = unpack_scores scores_x1_rows
